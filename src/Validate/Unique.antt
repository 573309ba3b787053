-- ===== src/Validate/Unique.antt =====
-- validate-commands: what exit code 0 says of the commands.
use mathlib.Core.Bool.{false≢true}
use novagate.Base.{
  ℕ, ◌≤◌, ◌≡◌, refl, sym, ap, ◌∙◌, Bool, true, false, ◌||◌, Option, some, List, [], ◌∷◌, ◌++◌,
  arith, Bool-cases, inl, inr, length, ltb,
}
use novagate.Base.Key.{is_there, get, ◌==◌, bytes_key, nat_key}
use novagate.Protocol.Bytes.{Bytes}
use novagate.Validate.{Loc, Issue, ScanResult, Scan, ByVal, Match, Pattern, duplicate_value}
use novagate.Validate.Scanning.{or_empty, scan_fixed_file, empty_scan}
use novagate.Validate.Checks.{
  duplicate_value_issues, validate_fixed_expectations, validate_consistency,
}
use novagate.Validate.Program.{parse_fixed, run, exit_code}
use novagate.Validate.Sound.{IsConsistent, implies, validate_consistency_iff, append_nil}
use novagate.Validate.Indexed.{
  issue_nil, names_in, IsIndexed, no_issue, scan_fixed_file-IsIndexed, empty_scan-IsIndexed,
}

-- With no duplicate reported a value has one definition.
single :
    (by_val : ByVal) (v : ℕ)
    → duplicate_value_issues by_val ≡ []
    → length (or_empty (get by_val v)) ≤ 1
unfolding duplicate_value_issues get
single [] v h = omega arith
single ((u, defs) ∷ rest) v h = elim (Bool-cases (ltb 1 (length defs))) [
  | inl many ↦
      absurd (issue_nil (duplicate_value u defs) (duplicate_value_issues rest) (rw many at h))
  | inr few ↦ elim (Bool-cases (u == v)) [
    | inl same ↦ rw same (ground arith)
    | inr other ↦ rw other (single rest v (rw few at h))
  ]
]

same_name :
    (defs : List (Bytes × Loc)) (a b : Bytes)
    → length defs ≤ 1
    → names_in defs a ≡ true
    → names_in defs b ≡ true
    → a ≡ b
same_name [] a b short ha hb = cc
same_name ((m, l) ∷ []) a b short ha hb =
    ground (arith, bytes_key.beq_iff m a, bytes_key.beq_iff m b)
same_name (d ∷ e ∷ defs) a b short ha hb = absurd (omega arith)

no_issue_nil : no_issue [] ≡ true
unfolding no_issue
no_issue_nil = refl

exit_zero : (is : List Issue) → exit_code is ≡ 0 → is ≡ []
exit_zero [] h = refl
exit_zero (i ∷ is) h = absurd (omega arith)

-- What exit code 0 says of a scan.
pub record IsWired (scan : ScanResult) (require_all : Bool) : Type 0 where
  pub consistent : IsConsistent scan require_all
  pub all_defined :
      (name : Bytes)
      → implies
          (is_there (get scan.registered name)
            || is_there (get scan.bridged name)
            || is_there (get scan.handled name))
          (is_there (get scan.cmd_vals name))
        ≡ true
  pub unique :
      (a b : Bytes) (v : ℕ) → get scan.cmd_vals a ≡ some v → get scan.cmd_vals b ≡ some v → a ≡ b

module _ (files : Bytes → Option Bytes) (find_all : Pattern → Bytes → List Match)
    (commands_path server_path registry_path : Bytes) where
  abbrev final : Scan
  final = scan_fixed_file files find_all registry_path false (
      scan_fixed_file files find_all server_path false
        (scan_fixed_file files find_all commands_path true empty_scan))

  final-IsIndexed : IsIndexed final
  final-IsIndexed = scan_fixed_file-IsIndexed files find_all registry_path false _ (
      scan_fixed_file-IsIndexed files find_all server_path false _ (
        scan_fixed_file-IsIndexed files find_all commands_path true empty_scan
          empty_scan-IsIndexed))

  IsWired-of :
      (require_all : Bool)
      → final.issues ≡ []
      → duplicate_value_issues final.by_val ≡ []
      → validate_consistency final.out require_all ≡ []
      → IsWired final.out require_all
  IsWired-of require_all quiet no_duplicate checked =
      let c = (validate_consistency_iff final.out require_all).0 checked in
      record {
        consistent = c;
        all_defined = λ name. elim (Bool-cases (is_there (get final.out.invalid_defs name))) [
          | inl decimal ↦
              let loud = final-IsIndexed.reported name decimal in
              absurd (false≢true (sym loud ∙ ap no_issue quiet ∙ no_issue_nil))
          | inr not_decimal ↦ ground (arith, c.known name, not_decimal)
        ];
        unique = λ a b v ha hb.
            same_name (or_empty (get final.by_val v)) a b (single final.by_val v no_duplicate)
              (final-IsIndexed.by_value a v ha) (final-IsIndexed.by_value b v hb);
      }

  -- Where the validator exits with 0, the scan of the three files is consistent, every command that is
  -- mapped, bridged or handled is defined with a hexadecimal value, and no two commands have one value.
  pub run_zero :
      (require_all : Bool)
      → run files find_all commands_path server_path registry_path require_all ≡ 0
      → IsWired (parse_fixed files find_all commands_path server_path registry_path).0 require_all
  unfolding run parse_fixed validate_fixed_expectations
  run_zero require_all h =
      let expected =
        validate_fixed_expectations final.out commands_path server_path registry_path
          final.by_val in
      let none_at_all : (final.issues ++ expected) ++ validate_consistency final.out require_all
          ≡ [] =
        exit_zero _ h in
      let (scanned, checked) = append_nil (final.issues ++ expected) _ none_at_all in
      let (quiet, e1) = append_nil final.issues _ scanned in
      let (e2, e3) = append_nil _ _ e1 in
      let (no_duplicate, e4) = append_nil (duplicate_value_issues final.by_val) _ e3 in
      IsWired-of require_all quiet no_duplicate checked
