-- ===== src/Stats/Estimate.antt =====
-- stats.go: the bounds that an estimate keeps, whatever the query says.
use novagate.Base.{
  ℕ, ◌≤◌, ◌<◌, ◌≡◌, refl, sym, [], false, Option, none, some, arith, Bool-cases, Option-cases, inl,
  inr,
}
use novagate.Base.Int.{ℤ, pos, ◌≤ℤ◌}
use novagate.Base.Key.{bytes_beq, is_there}
use novagate.Protocol.Bytes.{Bytes}
use novagate.Protocol.Mapper.Text.{trim_space}
use novagate.Server.Registry.{ascii}
use novagate.Admin.Text.{parse_int}
use novagate.Stats.{Query, bounded, query_int64_bounded, query_bool}
use novagate.Stats.Keys.{Sampled, sample_prefix_keys}
use novagate.Stats.Sample.{
  Float64, PrefixEstimate, maybe_estimate_prefix_keys, estimate_from_sample,
}
use novagate.Stats.Sampling.{sample_loop_ends}

bounded_bounds :
    (low high n : ℤ) → low ≤ℤ high → (low ≤ℤ bounded low high n) × (bounded low high n ≤ℤ high)
unfolding bounded
bounded_bounds low high n h = ground arith

query_bounds :
    (q : Query) (key : Bytes) (default_value low high : ℤ)
    → low ≤ℤ default_value
    → default_value ≤ℤ high
    → (low ≤ℤ query_int64_bounded q key default_value low high)
      × (query_int64_bounded q key default_value low high ≤ℤ high)
unfolding query_int64_bounded
query_bounds q key d low high hl hh = elim (Bool-cases (bytes_beq (trim_space (q key)) [])) [
  | inl missing ↦ rw (missing, query_int64_bounded) (hl, hh)
  | inr given ↦ elim (Option-cases (parse_int (trim_space (q key)))) [
    | inl unread ↦ rw (given, query_int64_bounded) (rw unread (hl, hh))
    | inr (n, read) ↦
        rw (given, query_int64_bounded) (rw read (bounded_bounds low high n (ground arith)))
  ]
]

-- What every estimate keeps.
pub record IsBounded (f : Float64) (e : PrefixEstimate f) : Type 0 where
  pub budget : (pos 10 ≤ℤ e.budget_ms) × (e.budget_ms ≤ℤ pos 2000)
  pub count : (pos 10 ≤ℤ e.scan_count) × (e.scan_count ≤ℤ pos 10000)
  pub matched : e.matched_keys ≤ e.scanned_keys
  pub scanned : e.scanned_keys ≤ 200000

abbrev pub AllBounded : (f : Float64) → Option (PrefixEstimate f) → Type 0
AllBounded f none = Unit {0}
AllBounded f (some e) = IsBounded f e

-- Once the clock passes the deadline in some round, however Redis answers and whatever the query says:
-- the sampling ends, with no estimate where none was asked for, and else with one whose budget lies
-- between 10 ms and 2 s, whose SCAN count lies between 10 and 10000, and that scanned at most 200000 keys
-- and matched no more than it scanned.
pub estimate_bounds :
    (f : Float64) (redis : ℤ → ℤ → Sampled) (elapsed : ℤ) (fuel n : ℕ) (prefix : Bytes) (dbsize : ℤ)
    (q : Query)
    → ((budget count : ℤ) → (redis budget count).in_time n ≡ false)
    → n < fuel
    → (result : Option (PrefixEstimate f)) × (maybe_estimate_prefix_keys f redis elapsed fuel prefix
          dbsize q
        ≡ some result)
      × AllBounded f result
      × (is_there result ≡ query_bool q (ascii "estimate_prefix"))
unfolding maybe_estimate_prefix_keys sample_prefix_keys
estimate_bounds f redis elapsed fuel n prefix dbsize q late enough =
    elim (Bool-cases (query_bool q (ascii "estimate_prefix"))) [
      | inr unasked ↦ (none, rw (unasked, maybe_estimate_prefix_keys) refl, tt, sym unasked)
      | inl asked ↦
          let budget = query_int64_bounded q (ascii "budget_ms") (pos 50) (pos 10) (pos 2000) in
          let count = query_int64_bounded q (ascii "scan_count") (pos 1000) (pos 10) (pos 10000) in
          let (s, m, ends, ms, sm) =
            sample_loop_ends (redis budget count) prefix 200000 fuel 0 0 0 0 n (late budget count)
              (omega arith) (omega arith) (omega arith) (omega arith) in
          let (ratio, estimated, low, high) = estimate_from_sample f dbsize s m in
          let e : PrefixEstimate f = record {
            budget_ms = budget;
            scan_count = count;
            elapsed_ms = elapsed;
            scanned_keys = s;
            matched_keys = m;
            matched_ratio = ratio;
            estimated_keys = estimated;
            estimated_keys_min = low;
            estimated_keys_max = high;
          } in
          let e_bounded : IsBounded f e = record {
            budget =
                query_bounds q (ascii "budget_ms") (pos 50) (pos 10) (pos 2000) (omega arith)
                  (omega arith);
            count =
                query_bounds q (ascii "scan_count") (pos 1000) (pos 10) (pos 10000) (omega arith)
                  (omega arith);
            matched = ms;
            scanned = sm;
          } in
          (some e, rw (asked, maybe_estimate_prefix_keys) (rw ends refl), e_bounded, sym asked)
    ]
