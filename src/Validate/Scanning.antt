-- ===== src/Validate/Scanning.antt =====
-- validate-commands: what a scan of the three files finds.
use novagate.Base.{
  ℕ, ◌+◌, ◌-◌, ◌*◌, ◌^◌, Bool, ◌&&◌, Option, none, some, List, [], ◌∷◌, ◌++◌, ltb, leb, take, drop,
  if◌then◌else◌,
}
use novagate.Base.Key.{GoMap, is_there, get, put, ◌==◌, bytes_key, nat_key}
use novagate.Protocol.Bytes.{Bytes}
use novagate.Validate.{
  Loc, Pattern, Match, Scan, unreadable, bad_value, decimal_value, cmd_def, cmd_def_decimal,
  register_method, bridge_call, router_register, dispatcher_register,
}

unfoldable pub newlines : Bytes → ℕ
newlines [] = 0
newlines (c ∷ s) = (if c == b'\n' then 1 else 0) + newlines s

unfoldable pub line_number : Bytes → ℕ → ℕ
unfolding newlines
line_number s idx = 1 + newlines (take idx s)

abbrev pub hex_digit : ℕ → Option ℕ
hex_digit c =
    if leb b'0' c && leb c b'9'
    then some (c - b'0')
    else if leb b'a' c && leb c b'f'
    then some (c - b'a' + 10)
    else if leb b'A' c && leb c b'F'
    then some (c - b'A' + 10)
    else none

unfoldable pub hex_value : ℕ → Bytes → Option ℕ
hex_value n [] = some n
hex_value n (c ∷ s) = elim (hex_digit c) [ none ↦ none | some d ↦ hex_value (n * 16 + d) s ]

-- strconv.ParseUint(raw, 0, 16) on what the pattern lets through, "0x" and hexadecimal digits.
unfoldable pub parse_uint16 : Bytes → Option ℕ
unfolding hex_value
parse_uint16 raw = elim (hex_value 0 (drop 2 raw)) [
  | none ↦ none
  | some n ↦ if ltb n (2 ^ 16) then some n else none
]

abbrev pub or_empty : Option (List (Bytes × Loc)) → List (Bytes × Loc)
or_empty none = []
or_empty (some defs) = defs

abbrev pub loc_of : Bytes → Bytes → Match → Loc
loc_of path s m = record { file = path; line = line_number s m.start }

module _ (path s : Bytes) where
  unfoldable pub scan_cmd_def : Match → Scan → Scan
  unfolding parse_uint16 line_number
  scan_cmd_def m scan = elim (parse_uint16 m.raw) [
    | none ↦ record scan { issues = scan.issues ++ (bad_value m.name m.raw (loc_of path s m) ∷ []) }
    | some v ↦ record scan {
      out = record scan.out {
        cmd_vals = put scan.out.cmd_vals m.name v;
        cmd_loc = put scan.out.cmd_loc m.name (loc_of path s m);
      };
      by_val = put scan.by_val v (or_empty (get scan.by_val v) ++ ((m.name, loc_of path s m) ∷ []));
    }
  ]

  unfoldable pub scan_cmd_defs : List Match → Scan → Scan
  unfolding scan_cmd_def
  scan_cmd_defs [] scan = scan
  scan_cmd_defs (m ∷ ms) scan = scan_cmd_defs ms (scan_cmd_def m scan)

  unfoldable pub scan_decimal_cmd_defs : List Match → Scan → Scan
  unfolding line_number
  scan_decimal_cmd_defs [] scan = scan
  scan_decimal_cmd_defs (m ∷ ms) scan = scan_decimal_cmd_defs ms (record scan {
    out = record scan.out { invalid_defs = put scan.out.invalid_defs m.name (loc_of path s m) };
    issues = scan.issues ++ (decimal_value m.name m.raw (loc_of path s m) ∷ []);
  })

  -- The first place of each name.
  unfoldable pub scan_refs : List Match → GoMap Bytes Loc → GoMap Bytes Loc
  unfolding line_number
  scan_refs [] out = out
  scan_refs (m ∷ ms) out =
      scan_refs ms (if is_there (get out m.name) then out else put out m.name (loc_of path s m))

module _ (files : Bytes → Option Bytes) (find_all : Pattern → Bytes → List Match) where
  unfoldable pub scan_text : Bytes → Bool → Bytes → Scan → Scan
  unfolding scan_cmd_defs scan_decimal_cmd_defs scan_refs
  scan_text path check_decimal s scan =
      let counted = record scan { out = record scan.out { scanned = scan.out.scanned + 1 } } in
      let defs = scan_cmd_defs path s (find_all cmd_def s) counted in
      let decimals =
        if check_decimal
        then scan_decimal_cmd_defs path s (find_all cmd_def_decimal s) defs
        else defs in
      record decimals {
        out = record decimals.out {
          registered = scan_refs path s (find_all register_method s) decimals.out.registered;
          bridged =
              scan_refs path s (find_all router_register s)
                (scan_refs path s (find_all bridge_call s) decimals.out.bridged);
          handled = scan_refs path s (find_all dispatcher_register s) decimals.out.handled;
        };
      }

  unfoldable pub scan_fixed_file : Bytes → Bool → Scan → Scan
  unfolding scan_text
  scan_fixed_file path check_decimal scan = elim (files path) [
    | none ↦ record scan { issues = scan.issues ++ (unreadable path ∷ []) }
    | some s ↦ scan_text path check_decimal s scan
  ]

abbrev pub empty_scan : Scan
empty_scan = record {
  out = record {
    cmd_vals = [];
    cmd_loc = [];
    invalid_defs = [];
    registered = [];
    bridged = [];
    handled = [];
    scanned = 0;
  };
  by_val = [];
  issues = [];
}
