-- ===== src/Stats/Keys.antt =====
-- stats.go: counting the keys of a prefix over the rounds of SCAN.
use novagate.Base.{
  ℕ, zero, suc, ◌+◌, Bool, true, false, not, ◌&&◌, ◌||◌, Option, none, some, List, [], ◌∷◌, Result,
  ok, err, ltb, ◌==◌, if◌then◌else◌,
}
use novagate.Base.Int.{ℤ, pos, ◌-ℤ◌, leb_ℤ}
use novagate.Base.Key.{bytes_beq, bytes_key}
use novagate.Protocol.Bytes.{Bytes}
use novagate.Admin.Text.{has_prefix}

abbrev pub is_match : Bytes → Bytes → Bool
is_match prefix k = not (bytes_beq prefix []) && has_prefix k prefix

-- What a loop over keys has scanned and matched, and whether the limit is reached.
unfoldable pub count_loop : List Bytes → Bytes → ℤ → ℕ → ℕ → ℕ × ℕ × Bool
count_loop [] prefix limit scanned matched = (scanned, matched, false)
count_loop (k ∷ keys) prefix limit scanned matched =
    let matched' = matched + (if is_match prefix k then 1 else 0) in
    let rest = count_loop keys prefix limit (scanned + 1) matched' in
    if leb_ℤ limit (pos (scanned + 1)) then (scanned + 1, matched', true) else rest

unfoldable pub count_prefix_matches : List Bytes → Bytes → ℤ → ℕ × ℕ × Bool
unfolding count_loop
count_prefix_matches keys prefix limit =
    if leb_ℤ limit (pos 0) then (0, 0, true) else count_loop keys prefix limit 0 0

-- What Redis and the clock answer in the rounds of the loop: SCAN at a cursor, and whether the deadline
-- lies ahead.
pub record Sampled : Type 0 where
  pub scan : ℕ → ℕ → Result Bytes (List Bytes × ℕ)
  pub in_time : ℕ → Bool

-- From a round on, with what is scanned and matched so far; none is the end of the fuel.
unfoldable pub sample_loop : Sampled → Bytes → ℕ → ℕ → ℕ → ℕ → ℕ → ℕ → Option (ℕ × ℕ)
unfolding count_prefix_matches
sample_loop r prefix max_scanned zero round cursor scanned matched = none
sample_loop r prefix max_scanned (suc fuel) round cursor scanned matched =
    elim (r.in_time round && ltb scanned max_scanned) [
      | false ↦ some (scanned, matched)
      | true ↦ elim (r.scan round cursor) [
        | err e ↦ some (scanned, matched)
        | ok (keys, next) ↦
            let (inc_scanned, inc_matched, reached) =
              count_prefix_matches keys prefix (pos max_scanned -ℤ pos scanned) in
            elim (reached || next == 0) [
              | true ↦ some (scanned + inc_scanned, matched + inc_matched)
              | false ↦
                  sample_loop r prefix max_scanned fuel (suc round) next (scanned + inc_scanned)
                    (matched + inc_matched)
            ]
      ]
    ]

unfoldable pub sample_prefix_keys : ℕ → Sampled → Bytes → ℕ → Option (ℕ × ℕ)
unfolding sample_loop
sample_prefix_keys fuel r prefix max_scanned = sample_loop r prefix max_scanned fuel 0 0 0 0
