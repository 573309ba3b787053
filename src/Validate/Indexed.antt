-- ===== src/Validate/Indexed.antt =====
-- validate-commands: what a scan knows of the commands that it found.
use novagate.Base.{
  ℕ, ◌+◌, ◌≡◌, refl, ◌∙◌, Bool, true, false, ◌||◌, Option, none, some, List, [], ◌∷◌, ◌++◌, arith,
  Bool-cases, Option-cases, inl, inr,
}
use novagate.Base.Key.{GoMap, is_there, get, put, get-put, ◌==◌, bytes_key, nat_key}
use novagate.Protocol.Bytes.{Bytes}
use novagate.Validate.{
  Loc, Issue, Scan, ByVal, Match, Pattern, decimal_value, bad_value, unreadable, cmd_def,
  cmd_def_decimal,
}
use novagate.Validate.Scanning.{
  or_empty, loc_of, parse_uint16, scan_cmd_def, scan_cmd_defs, scan_decimal_cmd_defs, scan_text,
  scan_fixed_file, empty_scan,
}

abbrev pub names_in : List (Bytes × Loc) → Bytes → Bool
names_in [] n = false
names_in ((m, l) ∷ defs) n = m == n || names_in defs n

names_in-append :
    (xs ys : List (Bytes × Loc)) (n : Bytes)
    → names_in (xs ++ ys) n ≡ (names_in xs n || names_in ys n)
names_in-append [] ys n = refl
names_in-append ((m, l) ∷ xs) ys n = ground (arith, names_in-append xs ys n, bytes_key.beq_iff m n)

unfoldable pub no_issue : List Issue → Bool
no_issue [] = true
no_issue (i ∷ is) = false

pub no_issue-append : (is : List Issue) (i : Issue) → no_issue (is ++ (i ∷ [])) ≡ false
unfolding no_issue
no_issue-append [] i = refl
no_issue-append (j ∷ is) i = refl

by_value_put :
    (vals : GoMap Bytes ℕ) (by_val : ByVal) (name n : Bytes) (l : Loc) (v0 v : ℕ)
    → (get vals n ≡ some v → names_in (or_empty (get by_val v)) n ≡ true)
    → get (put vals name v0) n ≡ some v
    → names_in (or_empty (get (put by_val v0 (or_empty (get by_val v0) ++ ((name, l) ∷ []))) v)) n
      ≡ true
by_value_put vals by_val name n l v0 v old got =
    let defs = or_empty (get by_val v0) ++ ((name, l) ∷ []) in
    rw (get-put by_val v0 v defs) (elim (Bool-cases (name == n)) [
      | inl same ↦
          let here : some v0 ≡ some v = rw (get-put vals name n v0, same) at got in
          let hit : (v0 == v) ≡ true = (nat_key.beq_iff v0 v).1 (cc) in
          rw hit
            (names_in-append (or_empty (get by_val v0)) ((name, l) ∷ []) n ∙ ground (arith, same))
      | inr other ↦
          let before : get vals n ≡ some v = rw (get-put vals name n v0, other) at got in
          elim (Bool-cases (v0 == v)) [
            | inl hit ↦
                let e : v0 ≡ v = (nat_key.beq_iff v0 v).0 hit in
                rw hit (
                  names_in-append (or_empty (get by_val v0)) ((name, l) ∷ []) n
                  ∙ rw e (rw (old before) refl))
            | inr miss ↦ rw miss (old before)
          ]
    ])

none-some : {v : ℕ} → ◌≡◌ {A = Option ℕ} none (some v) → ⊥
none-some h = cc

pub issue_nil : (i : Issue) (is : List Issue) → ◌≡◌ {A = List Issue} (i ∷ is) [] → ⊥
issue_nil i is h = cc

-- Every defined command stands among the definitions of its value, and a decimal definition was
-- reported.
pub record IsIndexed (scan : Scan) : Type 0 where
  pub by_value :
      (n : Bytes) (v : ℕ)
      → get scan.out.cmd_vals n ≡ some v
      → names_in (or_empty (get scan.by_val v)) n ≡ true
  pub reported :
      (n : Bytes) → is_there (get scan.out.invalid_defs n) ≡ true → no_issue scan.issues ≡ false

module _ (path s : Bytes) where
  scan_cmd_def-IsIndexed :
      (m : Match) (scan : Scan) → IsIndexed scan → IsIndexed (scan_cmd_def path s m scan)
  unfolding scan_cmd_def
  scan_cmd_def-IsIndexed m scan h = elim (Option-cases (parse_uint16 m.raw)) [
    | inl out_of_range ↦
        rw (out_of_range, scan_cmd_def)
          (record {
            by_value = h.by_value;
            reported =
                λ n there. no_issue-append scan.issues (bad_value m.name m.raw (loc_of path s m));
          })
    | inr (v0, parsed) ↦
        rw (parsed, scan_cmd_def)
          (record {
            by_value = λ n v got.
                by_value_put scan.out.cmd_vals scan.by_val m.name n (loc_of path s m) v0 v
                  (h.by_value n v) got;
            reported = h.reported;
          })
  ]

  scan_cmd_defs-IsIndexed :
      (ms : List Match) (scan : Scan) → IsIndexed scan → IsIndexed (scan_cmd_defs path s ms scan)
  unfolding scan_cmd_defs
  scan_cmd_defs-IsIndexed [] scan h = h
  scan_cmd_defs-IsIndexed (m ∷ ms) scan h =
      scan_cmd_defs-IsIndexed ms (scan_cmd_def path s m scan) (scan_cmd_def-IsIndexed m scan h)

  scan_decimal_cmd_defs-IsIndexed :
      (ms : List Match) (scan : Scan)
      → IsIndexed scan
      → IsIndexed (scan_decimal_cmd_defs path s ms scan)
  unfolding scan_decimal_cmd_defs
  scan_decimal_cmd_defs-IsIndexed [] scan h = h
  scan_decimal_cmd_defs-IsIndexed (m ∷ ms) scan h =
      let issue = decimal_value m.name m.raw (loc_of path s m) in
      scan_decimal_cmd_defs-IsIndexed ms _
        (record { by_value = h.by_value; reported = λ n there. no_issue-append scan.issues issue })

module _ (files : Bytes → Option Bytes) (find_all : Pattern → Bytes → List Match) where
  scan_text-IsIndexed :
      (path : Bytes) (check_decimal : Bool) (s : Bytes) (scan : Scan)
      → IsIndexed scan
      → IsIndexed (scan_text files find_all path check_decimal s scan)
  unfolding scan_text
  scan_text-IsIndexed path true s scan h =
      let counted : Scan = record scan {
        out = record scan.out { scanned = scan.out.scanned + 1 };
      } in
      let started : IsIndexed counted = record { by_value = h.by_value; reported = h.reported } in
      let k =
        scan_decimal_cmd_defs-IsIndexed path s (find_all cmd_def_decimal s) _
          (scan_cmd_defs-IsIndexed path s (find_all cmd_def s) counted started) in
      record { by_value = k.by_value; reported = k.reported }
  scan_text-IsIndexed path false s scan h =
      let counted : Scan = record scan {
        out = record scan.out { scanned = scan.out.scanned + 1 };
      } in
      let started : IsIndexed counted = record { by_value = h.by_value; reported = h.reported } in
      let k = scan_cmd_defs-IsIndexed path s (find_all cmd_def s) counted started in
      record { by_value = k.by_value; reported = k.reported }

  pub scan_fixed_file-IsIndexed :
      (path : Bytes) (check_decimal : Bool) (scan : Scan)
      → IsIndexed scan
      → IsIndexed (scan_fixed_file files find_all path check_decimal scan)
  unfolding scan_fixed_file
  scan_fixed_file-IsIndexed path check_decimal scan h = elim (Option-cases (files path)) [
    | inl missing ↦
        rw (missing, scan_fixed_file)
          (record {
            by_value = h.by_value;
            reported = λ n there. no_issue-append scan.issues (unreadable path);
          })
    | inr (s, found) ↦ rw (found, scan_fixed_file) (scan_text-IsIndexed path check_decimal s scan h)
  ]

pub empty_scan-IsIndexed : IsIndexed empty_scan
unfolding get
empty_scan-IsIndexed = record {
  by_value = λ n v got. absurd (none-some got);
  reported = λ n there. cc;
}
