-- ===== src/Stats/Sampling.antt =====
-- stats.go: what the sampling of keys counts, and that it ends.
use Prim.Native.Nat.{min}
use native.Mathlib.Decide.{dec_lt}
use mathlib.Core.Bool.{false≢true}
use novagate.Base.{
  ℕ, zero, suc, ◌+◌, ◌-◌, ◌≤◌, ◌<◌, ◌≡◌, refl, sym, ap, ◌∙◌, Bool, true, false, ◌&&◌, ◌||◌, some,
  List, [], ◌∷◌, ltb, leb, ◌==◌, if◌then◌else◌, length, take, length-take, arith, Bool-cases, inl,
  inr, Result-cases,
}
use novagate.Base.Int.{pos, ◌-ℤ◌, pos--ℤ, leb_ℤ}
use novagate.Protocol.Bytes.{Bytes}
use novagate.Stats.Keys.{is_match, count_loop, count_prefix_matches, Sampled, sample_loop}

-- The keys among some that match.
unfoldable pub matches : Bytes → List Bytes → ℕ
matches prefix [] = 0
matches prefix (k ∷ keys) = (if is_match prefix k then 1 else 0) + matches prefix keys

triple :
    {a a' b b' : ℕ} {c c' : Bool}
    → a ≡ a'
    → b ≡ b'
    → c ≡ c'
    → ◌≡◌ {A = ℕ × ℕ × Bool} (a, b, c) (a', b', c')
triple p q r = λ i. (p i, q i, r i)

abbrev hit : Bytes → Bytes → ℕ
hit prefix k = if is_match prefix k then 1 else 0

-- `d + 1` keys are left to the limit.
count_loop_lem :
    (keys : List Bytes) (prefix : Bytes) (d s m n : ℕ)
    → n ≡ s + suc d
    → count_loop keys prefix (pos n) s m ≡ (
      s + min (suc d) (length keys),
      m + matches prefix (take (suc d) keys),
      leb (suc d) (length keys),
    )
unfolding count_loop matches
count_loop_lem [] prefix d s m n h = triple (omega arith) (omega arith) (ground arith)
count_loop_lem (k ∷ keys) prefix zero s m n h =
    let last : leb_ℤ (pos n) (pos (s + 1)) ≡ true = ground arith in
    rw (last, count_loop) (triple (omega arith) (omega arith) (ground arith))
count_loop_lem (k ∷ keys) prefix (suc d) s m n h =
    let more : leb_ℤ (pos n) (pos (s + 1)) ≡ false = ground arith in
    rw (more, count_loop)
      (count_loop_lem keys prefix d (s + 1) (m + hit prefix k) n (omega arith)
        ∙ triple (omega arith) (omega arith) (ground arith))

-- Up to a limit of at least one key, the count is that of the first keys up to the limit, and the limit
-- is reached exactly where there are as many keys.
pub count_prefix_matches_lem :
    (keys : List Bytes) (prefix : Bytes) (d : ℕ)
    → count_prefix_matches keys prefix (pos (suc d))
      ≡ (min (suc d) (length keys), matches prefix (take (suc d) keys), leb (suc d) (length keys))
unfolding count_prefix_matches
count_prefix_matches_lem keys prefix d =
    let some_left : leb_ℤ (pos (suc d)) (pos 0) ≡ false = ground arith in
    rw (some_left, count_prefix_matches)
      (count_loop_lem keys prefix d 0 0 (suc d) (omega arith)
        ∙ triple (omega arith) (omega arith) refl)

matches-le : (prefix : Bytes) (keys : List Bytes) → matches prefix keys ≤ length keys
unfolding matches
matches-le prefix [] = omega arith
matches-le prefix (k ∷ keys) = ground (arith, matches-le prefix keys)

-- One round: what it adds fits below the limit, and no more is matched than scanned.
count_bounds :
    (keys : List Bytes) (prefix : Bytes) (scanned max_scanned : ℕ)
    → scanned < max_scanned
    → (let c = count_prefix_matches keys prefix (pos max_scanned -ℤ pos scanned) in
        (c.1 ≤ c.0) × (scanned + c.0 ≤ max_scanned))
count_bounds keys prefix scanned max_scanned h =
    let d = max_scanned - scanned - 1 in
    let e : pos max_scanned -ℤ pos scanned ≡ pos (suc d) =
      pos--ℤ max_scanned scanned (omega arith) ∙ ap pos (omega arith) in
    rw (e, count_prefix_matches_lem keys prefix d)
      (omega (arith, matches-le prefix (take (suc d) keys), length-take (suc d) keys), omega arith)

in_time_of : (a b : Bool) → (a && b) ≡ true → a ≡ true
in_time_of a b h = ground arith

earlier :
    (r : Sampled) (round n : ℕ)
    → r.in_time n ≡ false
    → round ≤ n
    → r.in_time round ≡ true
    → round < n
earlier r round n late low now = elim (dec_lt round n) [
  | yes h ↦ h
  | no h ↦
      let same : round ≡ n = omega arith in
      absurd (false≢true (sym late ∙ ap r.in_time (sym same) ∙ now))
]

-- From a round on, with the deadline passed in a later round that the fuel reaches.
pub sample_loop_ends :
    (r : Sampled) (prefix : Bytes) (max_scanned fuel round cursor scanned matched n : ℕ)
    → r.in_time n ≡ false
    → round ≤ n
    → n < round + fuel
    → matched ≤ scanned
    → scanned ≤ max_scanned
    → (s : ℕ) × (m : ℕ) × (sample_loop r prefix max_scanned fuel round cursor scanned matched
        ≡ some (s, m))
      × (m ≤ s)
      × (s ≤ max_scanned)
unfolding sample_loop
sample_loop_ends r prefix max_scanned zero round cursor scanned matched n late low high ms sm =
    absurd (omega arith)
sample_loop_ends r prefix max_scanned (suc fuel) round cursor scanned matched n late low high ms
      sm =
    elim (Bool-cases (r.in_time round && ltb scanned max_scanned)) [
      | inr stop ↦ (scanned, matched, rw (stop, sample_loop) refl, ms, sm)
      | inl go ↦
          let below : scanned < max_scanned = ground arith in
          let before : round < n =
            earlier r round n late low
              (in_time_of (r.in_time round) (ltb scanned max_scanned) go) in
          elim (Result-cases (r.scan round cursor)) [
            | inr (e, failed) ↦ (scanned, matched, rw (go, sample_loop) (rw failed refl), ms, sm)
            | inl ((keys, next), answered) ↦
                let c = count_prefix_matches keys prefix (pos max_scanned -ℤ pos scanned) in
                let (ba, fits) = count_bounds keys prefix scanned max_scanned below in
                elim (Bool-cases (c.2 || next == 0)) [
                  | inl done ↦ (
                    scanned + c.0,
                    matched + c.1,
                    rw (go, sample_loop) (rw answered (rw done refl)),
                    omega arith,
                    fits,
                  )
                  | inr on ↦
                      let (s, m, e, below1, below2) =
                        sample_loop_ends r prefix max_scanned fuel (suc round) next (scanned + c.0)
                          (matched + c.1) n late before (omega arith) (omega arith) fits in
                      (s, m, rw (go, sample_loop) (rw answered (rw on e)), below1, below2)
                ]
          ]
    ]
