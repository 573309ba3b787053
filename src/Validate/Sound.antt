-- ===== src/Validate/Sound.antt =====
-- validate-commands: no issue is found exactly where the scan is consistent.
use novagate.Base.{
  ℕ, ◌≡◌, ◌↔◌, refl, sym, ap, ◌∙◌, Bool, true, false, not, ◌&&◌, ◌||◌, List, [], ◌∷◌, ◌++◌,
  if◌then◌else◌, arith, Bool-cases, inl, inr,
}
use novagate.Base.Key.{GoMap, is_there, get, ◌==◌, bytes_key, beq_refl}
use novagate.Protocol.Bytes.{Bytes}
use novagate.Validate.{
  Issue, ScanResult, registers_unknown, bridges_unknown, handles_unknown, no_handler, not_bridged,
  mapped_not_bridged, defined_not_bridged, defined_no_handler,
}
use novagate.Validate.Checks.{
  report, unknown, validate_references_exist, validate_bridged_have_handlers,
  validate_handlers_are_bridged, validate_mappings_are_bridged, validate_all_defined_are_wired,
  validate_consistency, def_loc,
}

abbrev pub implies : Bool → Bool → Bool
implies a b = not a || b

-- What the validator asks of a scan, with all definitions to be used or not.
pub record IsConsistent (scan : ScanResult) (require_all : Bool) : Type 0 where
  -- What is referred to is defined, or was reported as a decimal definition.
  pub known :
      (name : Bytes)
      → implies
          (is_there (get scan.registered name)
            || is_there (get scan.bridged name)
            || is_there (get scan.handled name))
          (is_there (get scan.invalid_defs name) || is_there (get scan.cmd_vals name))
        ≡ true
  -- The bridged commands are the handled ones.
  pub wired : (name : Bytes) → is_there (get scan.bridged name) ≡ is_there (get scan.handled name)
  pub mapped :
      (name : Bytes)
      → implies (is_there (get scan.registered name)) (is_there (get scan.bridged name)) ≡ true
  pub all_wired :
      (name : Bytes)
      → implies
          (require_all && is_there (get scan.cmd_vals name))
          (is_there (get scan.bridged name))
        ≡ true

module _ {ℓ} {A : Type ℓ} where
  pub append_nil : (xs ys : List A) → xs ++ ys ≡ [] → (xs ≡ []) × (ys ≡ [])
  append_nil [] ys h = (refl, h)
  append_nil (x ∷ xs) ys h = cc

  cons_nil : (x : A) (xs : List A) → ◌≡◌ {A = List A} (x ∷ xs) [] → ⊥
  cons_nil x xs h = cc

  nil_append : (xs ys : List A) → xs ≡ [] → ys ≡ [] → xs ++ ys ≡ []
  nil_append [] ys h k = k
  nil_append (x ∷ xs) ys h k = cc

module _ {ℓ} {V : Type ℓ} (bad : Bytes → Bool) (make : Bytes → V → Issue) where
  report_cons :
      (m : GoMap Bytes V) (k : Bytes) (v : V)
      → report bad make ((k, v) ∷ m) ≡ []
      → (bad k ≡ false) × (report bad make m ≡ [])
  unfolding report
  report_cons m k v h = elim (Bool-cases (bad k)) [
    | inl yes_bad ↦ absurd (cons_nil (make k v) (report bad make m) (rw yes_bad at h))
    | inr good ↦ (good, rw good at h)
  ]

  report_none :
      (m : GoMap Bytes V)
      → report bad make m ≡ []
      → (name : Bytes) → is_there (get m name) ≡ true
      → bad name ≡ false
  unfolding get
  report_none [] h name there = cc
  report_none ((k, v) ∷ m) h name there =
      let (good, rest) = report_cons m k v h in
      elim (Bool-cases (k == name)) [
        | inl same ↦ ap bad (sym ((bytes_key.beq_iff k name).0 same)) ∙ good
        | inr other ↦ report_none m rest name (rw other at there)
      ]

  report_all :
      (m : GoMap Bytes V)
      → ((name : Bytes) → is_there (get m name) ≡ true → bad name ≡ false)
      → report bad make m ≡ []
  unfolding report get
  report_all [] h = refl
  report_all ((k, v) ∷ m) h = rw (h k (rw (beq_refl k) refl)) (
      report_all m (λ name there. elim (Bool-cases (k == name)) [
        | inl same ↦ h name (rw same refl)
        | inr other ↦ h name (rw other there)
      ]))

module _ (scan : ScanResult) where
  abbrev no_handled : Bytes → Bool
  no_handled name = not (is_there (get scan.handled name))

  abbrev no_bridge : Bytes → Bool
  no_bridge name = not (is_there (get scan.bridged name))

  all_wired_of :
      (require_all : Bool)
      → (if require_all then validate_all_defined_are_wired scan else []) ≡ []
      → (name : Bytes)
      → implies
          (require_all && is_there (get scan.cmd_vals name))
          (is_there (get scan.bridged name))
        ≡ true
  unfolding validate_all_defined_are_wired
  all_wired_of false all name = refl
  all_wired_of true all name =
      let make = λ (n : Bytes) (v : ℕ). defined_not_bridged n (def_loc scan n) in
      let first = (append_nil (report no_bridge make scan.cmd_vals) _ all).0 in
      ground (arith, report_none no_bridge make scan.cmd_vals first name)

  IsConsistent-of :
      (require_all : Bool)
      → validate_references_exist scan ≡ []
      → validate_bridged_have_handlers scan ≡ []
      → validate_handlers_are_bridged scan ≡ []
      → validate_mappings_are_bridged scan ≡ []
      → (if require_all then validate_all_defined_are_wired scan else []) ≡ []
      → IsConsistent scan require_all
  unfolding validate_references_exist validate_bridged_have_handlers validate_handlers_are_bridged
      validate_mappings_are_bridged validate_all_defined_are_wired
  IsConsistent-of require_all refs handlers bridges mappings all =
      let (r, bh) = append_nil (report (unknown scan) registers_unknown scan.registered) _ refs in
      let (b, h) = append_nil (report (unknown scan) bridges_unknown scan.bridged) _ bh in
      record {
        known = λ name. ground (
          arith,
          report_none (unknown scan) registers_unknown scan.registered r name,
          report_none (unknown scan) bridges_unknown scan.bridged b name,
          report_none (unknown scan) handles_unknown scan.handled h name,
        );
        wired = λ name. ground (
          arith,
          report_none no_handled no_handler scan.bridged handlers name,
          report_none no_bridge not_bridged scan.handled bridges name,
        );
        mapped = λ name.
            ground (arith, report_none no_bridge mapped_not_bridged scan.registered mappings name);
        all_wired = λ name. all_wired_of require_all all name;
      }

  all_defined_wired :
      (require_all : Bool)
      → IsConsistent scan require_all
      → (if require_all then validate_all_defined_are_wired scan else []) ≡ []
  unfolding validate_all_defined_are_wired
  all_defined_wired false c = refl
  all_defined_wired true c =
      nil_append _ _
        (report_all no_bridge (λ n v. defined_not_bridged n (def_loc scan n)) scan.cmd_vals
          (λ name there. ground (arith, c.all_wired name)))
        (report_all no_handled (λ n v. defined_no_handler n (def_loc scan n)) scan.cmd_vals
          (λ name there. ground (arith, c.all_wired name, c.wired name)))

  -- The checks find no issue exactly where the scan is consistent: every command that is mapped, bridged
  -- or handled is defined (one with a decimal value has an issue of its own), the bridged commands are the
  -- handled ones, the mapped ones are bridged, and with -require-all so are all that are defined.
  pub validate_consistency_iff :
      (require_all : Bool)
      → (validate_consistency scan require_all ≡ []) ↔ IsConsistent scan require_all
  unfolding validate_consistency validate_references_exist validate_bridged_have_handlers
      validate_handlers_are_bridged validate_mappings_are_bridged
  validate_consistency_iff require_all = (sound, complete)
    where
      sound : validate_consistency scan require_all ≡ [] → IsConsistent scan require_all
      sound h =
          let (refs, h1) = append_nil (validate_references_exist scan) _ h in
          let (handlers, h2) = append_nil (validate_bridged_have_handlers scan) _ h1 in
          let (bridges, h3) = append_nil (validate_handlers_are_bridged scan) _ h2 in
          let (mappings, all) = append_nil (validate_mappings_are_bridged scan) _ h3 in
          IsConsistent-of require_all refs handlers bridges mappings all

      complete : IsConsistent scan require_all → validate_consistency scan require_all ≡ []
      complete c =
          nil_append (validate_references_exist scan) _
            (nil_append _ _
              (report_all (unknown scan) registers_unknown scan.registered
                (λ name there. ground (arith, c.known name)))
              (nil_append _ _
                (report_all (unknown scan) bridges_unknown scan.bridged
                  (λ name there. ground (arith, c.known name)))
                (report_all (unknown scan) handles_unknown scan.handled
                  (λ name there. ground (arith, c.known name)))))
            (nil_append _ _
              (report_all no_handled no_handler scan.bridged
                (λ name there. ground (arith, c.wired name)))
              (nil_append _ _
                (report_all no_bridge not_bridged scan.handled
                  (λ name there. ground (arith, c.wired name)))
                (nil_append _ _
                  (report_all no_bridge mapped_not_bridged scan.registered
                    (λ name there. ground (arith, c.mapped name)))
                  (all_defined_wired require_all c))))
