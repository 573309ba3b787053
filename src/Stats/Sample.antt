-- ===== src/Stats/Sample.antt =====
-- stats.go: what a sample of the keys says of all of them.
use novagate.Base.{ℕ, not, ◌&&◌, Option, none, some, ltb, if◌then◌else◌}
use novagate.Base.Int.{ℤ, pos, leb_ℤ}
use novagate.Base.Key.{bytes_key}
use novagate.Protocol.Bytes.{Bytes}
use novagate.Server.Registry.{ascii}
use novagate.Stats.{Query, query_bool, query_int64_bounded}
use novagate.Stats.Keys.{Sampled, sample_prefix_keys}

-- float64: conversions from and to int64, and the operations.
pub record Float64 : Type 1 where
  pub F : Type 0
  pub of_int : ℤ → F
  pub mul : F → F → F
  pub div : F → F → F
  pub truncate : F → ℤ

pub record PrefixEstimate (f : Float64) : Type 0 where
  pub budget_ms : ℤ
  pub scan_count : ℤ
  pub elapsed_ms : ℤ
  pub scanned_keys : ℕ
  pub matched_keys : ℕ
  pub matched_ratio : f.F
  pub estimated_keys : ℤ
  pub estimated_keys_min : ℤ
  pub estimated_keys_max : ℤ

module _ (f : Float64) where
  open f use {F, of_int, mul, div, truncate}

  abbrev factor : ℕ → F
  factor scanned =
      if ltb scanned 20000
      then of_int (pos 2)
      else if ltb scanned 100000
      then div (of_int (pos 3)) (of_int (pos 2))
      else of_int (pos 1)

  unfoldable pub estimate_from_sample : ℤ → ℕ → ℕ → F × ℤ × ℤ × ℤ
  estimate_from_sample dbsize scanned matched =
      let ratio =
        if ltb 0 scanned
        then div (of_int (pos matched)) (of_int (pos scanned))
        else of_int (pos 0) in
      let estimated = truncate (mul (of_int dbsize) ratio) in
      let low = truncate (div (of_int estimated) (factor scanned)) in
      let high = truncate (mul (of_int estimated) (factor scanned)) in
      let is_empty = leb_ℤ dbsize (pos 0) && leb_ℤ (pos 0) dbsize in
      if is_empty then (ratio, estimated, pos 0, pos 0) else (ratio, estimated, low, high)

  -- The sampling of a call, by its budget in milliseconds and its count, with the time it took.
  unfoldable pub maybe_estimate_prefix_keys :
      (ℤ → ℤ → Sampled) → ℤ → ℕ → Bytes → ℤ → Query → Option (Option (PrefixEstimate f))
  unfolding query_int64_bounded sample_prefix_keys estimate_from_sample query_bool
  maybe_estimate_prefix_keys redis elapsed fuel prefix dbsize q =
      let budget = query_int64_bounded q (ascii "budget_ms") (pos 50) (pos 10) (pos 2000) in
      let count = query_int64_bounded q (ascii "scan_count") (pos 1000) (pos 10) (pos 10000) in
      let estimate = λ (scanned matched : ℕ).
        let (ratio, estimated, low, high) = estimate_from_sample dbsize scanned matched in
        let e : PrefixEstimate f = record {
          budget_ms = budget;
          scan_count = count;
          elapsed_ms = elapsed;
          scanned_keys = scanned;
          matched_keys = matched;
          matched_ratio = ratio;
          estimated_keys = estimated;
          estimated_keys_min = low;
          estimated_keys_max = high;
        } in
        e in
      let sampled : Option (Option (PrefixEstimate f)) =
        elim (sample_prefix_keys fuel (redis budget count) prefix 200000) [
          | none ↦ none
          | some (scanned, matched) ↦ some (some (estimate scanned matched))
        ] in
      if not (query_bool q (ascii "estimate_prefix")) then some none else sampled
