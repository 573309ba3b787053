-- ===== src/Validate/Checks.antt =====
-- validate-commands: the checks over a scan.
use novagate.Base.{
  Bool, true, false, not, ◌&&◌, none, some, List, [], ◌∷◌, ◌++◌, ltb, length, if◌then◌else◌,
}
use novagate.Base.Key.{GoMap, is_there, get, bytes_key, nat_key}
use novagate.Protocol.Bytes.{Bytes}
use novagate.Validate.{
  Loc, Issue, ScanResult, ByVal, registers_unknown, bridges_unknown, handles_unknown, no_handler,
  not_bridged, mapped_not_bridged, defined_not_bridged, defined_no_handler, no_constants,
  no_registrations, no_bridges, no_handlers, duplicate_value,
}

unfoldable pub duplicate_value_issues : ByVal → List Issue
duplicate_value_issues [] = []
duplicate_value_issues ((v, defs) ∷ rest) =
    let more = duplicate_value_issues rest in
    if ltb 1 (length defs) then duplicate_value v defs ∷ more else more

abbrev pub no_entries {ℓ κ} : {K : Type ℓ} {V : Type κ} → GoMap K V → Bool
no_entries [] = true
no_entries (e ∷ m) = false

abbrev issue_if : Bool → Issue → List Issue
issue_if b i = if b then i ∷ [] else []

unfoldable pub validate_fixed_expectations : ScanResult → Bytes → Bytes → Bytes → ByVal → List Issue
unfolding duplicate_value_issues
validate_fixed_expectations out commands_path server_path registry_path by_val =
    issue_if (no_entries out.cmd_vals && no_entries out.invalid_defs) (no_constants commands_path)
    ++ (duplicate_value_issues by_val
        ++ (issue_if (no_entries out.registered) (no_registrations server_path)
            ++ (issue_if (no_entries out.bridged) (no_bridges server_path)
                ++ issue_if (no_entries out.handled) (no_handlers registry_path))))

-- A loop over a map that reports the names that fail a test.
unfoldable pub report {ℓ} :
    {V : Type ℓ} → (Bytes → Bool) → (Bytes → V → Issue) → GoMap Bytes V → List Issue
report bad make [] = []
report bad make ((name, v) ∷ m) =
    let more = report bad make m in if bad name then make name v ∷ more else more

module _ (scan : ScanResult) where
  -- A name that is defined neither in hexadecimal nor in decimal.
  abbrev pub unknown : Bytes → Bool
  unknown name =
      not (is_there (get scan.invalid_defs name)) && not (is_there (get scan.cmd_vals name))

  unfoldable pub validate_references_exist : List Issue
  unfolding report
  validate_references_exist =
      report unknown registers_unknown scan.registered
      ++ (report unknown bridges_unknown scan.bridged
          ++ report unknown handles_unknown scan.handled)

  unfoldable pub validate_bridged_have_handlers : List Issue
  unfolding report
  validate_bridged_have_handlers =
      report (λ name. not (is_there (get scan.handled name))) no_handler scan.bridged

  unfoldable pub validate_handlers_are_bridged : List Issue
  unfolding report
  validate_handlers_are_bridged =
      report (λ name. not (is_there (get scan.bridged name))) not_bridged scan.handled

  unfoldable pub validate_mappings_are_bridged : List Issue
  unfolding report
  validate_mappings_are_bridged =
      report (λ name. not (is_there (get scan.bridged name))) mapped_not_bridged scan.registered

  abbrev nowhere : Loc
  nowhere = record { file = []; line = 0 }

  abbrev pub def_loc : Bytes → Loc
  def_loc name = elim (get scan.cmd_loc name) [ none ↦ nowhere | some l ↦ l ]

  unfoldable pub validate_all_defined_are_wired : List Issue
  unfolding report
  validate_all_defined_are_wired =
      report (λ name. not (is_there (get scan.bridged name)))
        (λ name v. defined_not_bridged name (def_loc name)) scan.cmd_vals
      ++ report (λ name. not (is_there (get scan.handled name)))
          (λ name v. defined_no_handler name (def_loc name)) scan.cmd_vals

  unfoldable pub validate_consistency : Bool → List Issue
  unfolding validate_references_exist validate_bridged_have_handlers validate_handlers_are_bridged
      validate_mappings_are_bridged validate_all_defined_are_wired
  validate_consistency require_all =
      validate_references_exist
      ++ (validate_bridged_have_handlers
          ++ (validate_handlers_are_bridged
              ++ (validate_mappings_are_bridged
                  ++ (if require_all then validate_all_defined_are_wired else []))))
