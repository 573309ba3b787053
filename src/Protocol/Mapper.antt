-- ===== src/Protocol/Mapper.antt =====
-- protocol/mapper.go: method names and command ids. The package variables are a state that each
-- function takes; the lock makes each call one step. A name is its bytes.
pub mod Text
pub mod Consistent
pub mod Lookup
use Prim.Native.Nat.{bit_xor}
use novagate.Base.{
  ℕ, ◌+◌, ◌-◌, ◌*◌, ◌%◌, ◌^◌, Bool, true, false, not, ◌&&◌, ◌||◌, Option, none, some, List, [], ◌∷◌,
  ◌++◌, Result, ok, err, ◌>>=◌, leb, ◌==◌, length, take, drop, if◌then◌else◌,
}
use novagate.Base.Key.{GoMap, get, put, bytes_key, bytes_beq, nat_key}
use novagate.Protocol.Bytes.{Bytes}
unfoldable pub use Text.{trim_space, last_index_byte}

pub record Mapping : Type 0 where
  pub method_command : GoMap Bytes ℕ
  pub command_method : GoMap ℕ Bytes
  pub strict_mapping : Bool

abbrev pub no_mappings : Mapping
no_mappings = record { method_command = []; command_method = []; strict_mapping = false }

pub data MapError : Type 0 where
  invalid_method_format : Bytes → MapError
  unregistered : Bytes → MapError

-- The panics of RegisterFullMethodCommand.
pub data RegisterPanic : Type 0 where
  empty_full_method : RegisterPanic
  bad_format : Bytes → RegisterPanic
  already_bound : ℕ → Bytes → Bytes → RegisterPanic

unfoldable pub set_strict_command_mapping : Mapping → Bool → Mapping
set_strict_command_mapping m strict = record m { strict_mapping = strict }

-- LastIndexByte returns -1 for `none`.
unfoldable pub split_full_method : Bytes → Result MapError (Bytes × Bytes)
split_full_method full_method = elim (last_index_byte full_method b'.') [
  | none ↦ err (invalid_method_format full_method)
  | some idx ↦
      if idx == 0 || leb (length full_method - 1) idx
      then err (invalid_method_format full_method)
      else (let service = trim_space (take idx full_method) in
          let method = trim_space (drop (idx + 1) full_method) in
          if bytes_beq service [] || bytes_beq method []
          then err (invalid_method_format full_method)
          else ok (service, method))
]

-- service + "." + method
abbrev pub join : Bytes → Bytes → Bytes
join service method = service ++ b'.' ∷ method

-- `commandMethod[cmd]` is there and names another method.
unfoldable pub is_bound_elsewhere : Option Bytes → Bytes → Bool
is_bound_elsewhere none full_method = false
is_bound_elsewhere (some existing) full_method = not (bytes_beq existing full_method)

existing_of : Option Bytes → Bytes
existing_of none = []
existing_of (some existing) = existing

unfoldable pub bind : Mapping → Bytes → ℕ → Result RegisterPanic Mapping
unfolding is_bound_elsewhere existing_of
bind m full_method cmd =
    let bound = get m.command_method cmd in
    if is_bound_elsewhere bound full_method
    then err (already_bound cmd (existing_of bound) full_method)
    else ok (record m {
      method_command = put m.method_command full_method cmd;
      command_method = put m.command_method cmd full_method;
    })

unfoldable pub register_full_method_command : Mapping → Bytes → ℕ → Result RegisterPanic Mapping
register_full_method_command m name cmd =
    let full_method = trim_space name in
    if bytes_beq full_method []
    then err empty_full_method
    else elim (split_full_method full_method) [
      | err e ↦ err (bad_format full_method)
      | ok parts ↦ bind m full_method cmd
    ]

unfoldable pub register_method_command : Mapping → Bytes → Bytes → ℕ → Result RegisterPanic Mapping
register_method_command m service method cmd =
    register_full_method_command m (join service method) cmd

-- hash/fnv's New32a: xor a byte in, then multiply by the prime, in 32 bits.
fnv_write : ℕ → Bytes → ℕ
fnv_write h [] = h
fnv_write h (b ∷ bytes) = fnv_write (bit_xor h b * 16777619 % 2 ^ 32) bytes

unfoldable pub fallback_command : Bytes → Bytes → ℕ
unfolding fnv_write
fallback_command service method =
    fnv_write (fnv_write (fnv_write 2166136261 service) (0 ∷ [])) method % 2 ^ 16

unfoldable pub resolve : Mapping → Bytes → Bytes → Result MapError ℕ
resolve m service method =
    let normalized = join service method in
    elim (get m.method_command normalized) [
      | some cmd ↦ ok cmd
      | none ↦
          if m.strict_mapping
          then err (unregistered normalized)
          else ok (fallback_command service method)
    ]

unfoldable pub map_method_to_command : Mapping → Bytes → Result MapError ℕ
unfolding resolve
map_method_to_command m name = do
  (service, method) ← split_full_method (trim_space name)
  resolve m service method
