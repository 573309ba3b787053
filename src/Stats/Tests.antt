-- ===== src/Stats/Tests.antt =====
-- stats.go on small inputs.
use novagate.Base.{◌≡◌, refl, Option, some, [], ◌∷◌, ok, ltb, arith, if◌then◌else◌, ◌++◌}
use novagate.Base.Int.{ℤ, pos, ◌*ℤ◌, ◌-ℤ◌}
use novagate.Base.Key.{put, bytes_beq, is_there}
use novagate.Protocol.Mapper.Text.{trim_space}
use novagate.Server.Registry.{ascii}
use novagate.Admin.Text.{has_prefix, split}
use novagate.Stats.{Query, parse_redis_info, query_bool}
use novagate.Stats.Keys.{Sampled, sample_prefix_keys}
use novagate.Stats.Sample.{Float64, PrefixEstimate, maybe_estimate_prefix_keys}
use novagate.Stats.Estimate.{AllBounded, estimate_bounds}

-- The later of two lines with one key wins; comments and lines without a colon are left out.
info_lines :
    parse_redis_info (
      ascii "# Memory"
      ++ (13 ∷ 10 ∷ ascii "used: 7" ++ (13 ∷ 10 ∷ ascii "odd" ++ (10 ∷ ascii "used:9"))))
    ≡ (ascii "used", ascii "9") ∷ []
unfolding parse_redis_info split put has_prefix trim_space
info_lines = refl

-- Two pages of keys, and a deadline after the third round.
abbrev two_pages : Sampled
two_pages = record {
  scan = λ round cursor.
      if bytes_beq (cursor ∷ []) (0 ∷ [])
      then ok (ascii "acl:a" ∷ ascii "x" ∷ [], 5)
      else ok (ascii "acl:b" ∷ [], 0);
  in_time = λ round. ltb round 3;
}

sampled_two_pages : sample_prefix_keys 4 two_pages (ascii "acl:") 200000 ≡ some (3, 2)
unfolding sample_prefix_keys has_prefix ◌-ℤ◌
sampled_two_pages = refl

-- A full page with a limit of two keys.
sampled_limit : sample_prefix_keys 4 two_pages (ascii "acl:") 2 ≡ some (2, 1)
unfolding sample_prefix_keys has_prefix ◌-ℤ◌
sampled_limit = refl

abbrev integers : Float64
integers = record { F = ℤ; of_int = λ n. n; mul = λ a b. a *ℤ b; div = λ a b. a; truncate = λ a. a }

abbrev asks : Query
asks key =
    if bytes_beq key (ascii "estimate_prefix")
    then ascii " Yes "
    else if bytes_beq key (ascii "budget_ms")
    then ascii "99999"
    else []

estimate_bounds_example :
    (result : Option (PrefixEstimate integers)) × (maybe_estimate_prefix_keys integers
        (λ b c. two_pages)
        (pos 1)
        4
        (ascii "acl:")
        (pos 3)
        asks
      ≡ some result)
    × AllBounded integers result
    × (is_there result ≡ query_bool asks (ascii "estimate_prefix"))
estimate_bounds_example =
    estimate_bounds integers (λ b c. two_pages) (pos 1) 4 3 (ascii "acl:") (pos 3) asks
      (λ b c. refl) (omega arith)
