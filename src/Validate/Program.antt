-- ===== src/Validate/Program.antt =====
-- validate-commands: parseFixed and run.
use novagate.Base.{ℕ, Bool, true, false, Option, List, [], ◌∷◌, ◌++◌}
use novagate.Base.Key.{bytes_key, nat_key}
use novagate.Protocol.Bytes.{Bytes}
use novagate.Validate.{Issue, Pattern, Match, ScanResult}
use novagate.Validate.Scanning.{scan_fixed_file, empty_scan}
use novagate.Validate.Checks.{validate_fixed_expectations, validate_consistency}

unfoldable pub parse_fixed :
    (Bytes → Option Bytes)
    → (Pattern → Bytes → List Match)
    → Bytes
    → Bytes
    → Bytes
    → ScanResult × List Issue
unfolding scan_fixed_file validate_fixed_expectations
parse_fixed files find_all commands_path server_path registry_path =
    let scan = scan_fixed_file files find_all registry_path false (
      scan_fixed_file files find_all server_path false
        (scan_fixed_file files find_all commands_path true empty_scan)) in
    (
      scan.out,
      scan.issues
          ++ validate_fixed_expectations scan.out commands_path server_path registry_path
              scan.by_val,
    )

abbrev pub exit_code : List Issue → ℕ
exit_code [] = 0
exit_code (issue ∷ more) = 1

-- The exit code.
unfoldable pub run :
    (Bytes → Option Bytes) → (Pattern → Bytes → List Match) → Bytes → Bytes → Bytes → Bool → ℕ
unfolding parse_fixed validate_consistency
run files find_all commands_path server_path registry_path require_all =
    let (scan, scan_issues) = parse_fixed files find_all commands_path server_path registry_path in
    exit_code (scan_issues ++ validate_consistency scan require_all)
