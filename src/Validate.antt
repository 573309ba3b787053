-- ===== src/Validate.antt =====
-- cmd/validate-commands/main.go: the check that commands are defined, mapped, bridged and handled
-- consistently. What the regular expressions find in a text and what a file holds are parameters; the
-- flags' values are arguments. The issues are a list, in the order of their checks; the program sorts
-- them by their texts before it prints them.
pub mod Scanning
pub mod Checks
pub mod Program
pub mod Sound
pub mod Indexed
pub mod Unique
pub mod Tests
use novagate.Base.{
  ℕ, zero, suc, ◌+◌, ◌-◌, ◌*◌, ◌^◌, Bool, true, false, not, ◌&&◌, ◌||◌, Option, none, some, List,
  [], ◌∷◌, ◌++◌, ltb, leb, length, take, drop, if◌then◌else◌,
}
use novagate.Base.Key.{GoMap, is_there, get, put, ◌==◌, bytes_key, nat_key, bytes_beq}
use novagate.Protocol.Bytes.{Bytes}
use novagate.Server.Registry.{ascii}

pub record Loc : Type 0 where
  pub file : Bytes
  pub line : ℕ

-- One constructor for each text of an issue.
pub data Issue : Type 0 where
  unreadable : (path : Bytes) → Issue
  bad_value : (name raw : Bytes) (where_ : Loc) → Issue
  decimal_value : (name raw : Bytes) (where_ : Loc) → Issue
  registers_unknown bridges_unknown handles_unknown : (name : Bytes) (where_ : Loc) → Issue
  no_handler not_bridged mapped_not_bridged : (name : Bytes) (where_ : Loc) → Issue
  defined_not_bridged defined_no_handler : (name : Bytes) (where_ : Loc) → Issue
  no_constants no_registrations no_bridges no_handlers : (path : Bytes) → Issue
  duplicate_value : (value : ℕ) (defs : List (Bytes × Loc)) → Issue

-- The expressions of defaultPatterns, and a match: its offset and its groups.
pub data Pattern : Type 0 where
  cmd_def cmd_def_decimal register_method bridge_call router_register dispatcher_register : Pattern

pub record Match : Type 0 where
  pub start : ℕ
  pub name : Bytes
  pub raw : Bytes

pub record ScanResult : Type 0 where
  pub cmd_vals : GoMap Bytes ℕ
  pub cmd_loc : GoMap Bytes Loc
  pub invalid_defs : GoMap Bytes Loc
  pub registered : GoMap Bytes Loc
  pub bridged : GoMap Bytes Loc
  pub handled : GoMap Bytes Loc
  pub scanned : ℕ

abbrev pub ByVal : Type 0
ByVal = GoMap ℕ (List (Bytes × Loc))

-- What a scan changes: the result, the definitions by value, and the issues so far.
pub record Scan : Type 0 where
  pub out : ScanResult
  pub by_val : ByVal
  pub issues : List Issue
