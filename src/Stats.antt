-- ===== src/Stats.antt =====
-- services/acl/biz/handler/stats.go: the statistics endpoint. Redis, the clock and float64 are parameters;
-- time.Now().Before(deadline) is asked once in each round of the sampling loop. This file reads INFO and
-- the query's parameters.
pub mod Keys
pub mod Sample
pub mod Endpoint
pub mod Sampling
pub mod Estimate
pub mod Tests
use novagate.Base.{
  ℕ, zero, suc, ◌+◌, ◌-◌, ◌*◌, Bool, true, false, not, ◌&&◌, ◌||◌, Option, none, some, List, [],
  ◌∷◌, ◌++◌, Result, ok, err, ltb, leb, ◌==◌, if◌then◌else◌,
}
use novagate.Base.Int.{ℤ, pos, negsuc, ◌-ℤ◌, ltb_ℤ, leb_ℤ}
use novagate.Base.Key.{GoMap, put, bytes_beq, bytes_key}
use novagate.Protocol.Bytes.{Bytes}
use novagate.Protocol.Mapper.Text.{trim_space}
use novagate.Server.Registry.{ascii}
use novagate.Acl.Memory.{InMemoryStore, InMemoryStats, stats as memory_stats}
use novagate.Admin.Text.{has_prefix, split, parse_int}

-- strings.Cut at one byte: what stands before and behind the first one.
unfoldable pub cut : Bytes → ℕ → Option (Bytes × Bytes)
cut [] sep = none
cut (c ∷ s) sep =
    let rest = cut s sep in
    let longer : Option (Bytes × Bytes) = elim rest [
      | none ↦ none
      | some (before, after) ↦ some (c ∷ before, after)
    ] in
    if c == sep then some ([], s) else longer

abbrev is_comment : Bytes → Bool
is_comment line = bytes_beq line [] || has_prefix line (b'#' ∷ [])

-- The round of parseRedisInfo's loop on one line.
unfoldable pub add_info_line : Bytes → GoMap Bytes Bytes → GoMap Bytes Bytes
unfolding cut
add_info_line raw m =
    let line = trim_space raw in
    if is_comment line then m else elim (cut line b':') [
      | none ↦ m
      | some (k, v) ↦ if bytes_beq (trim_space k) [] then m else put m (trim_space k) (trim_space v)
    ]

unfoldable pub add_info_lines : List Bytes → GoMap Bytes Bytes → GoMap Bytes Bytes
unfolding add_info_line
add_info_lines [] m = m
add_info_lines (line ∷ lines) m = add_info_lines lines (add_info_line line m)

unfoldable pub parse_redis_info : Bytes → GoMap Bytes Bytes
unfolding add_info_lines
parse_redis_info info = add_info_lines (split info b'\n') []

-- strings.ToLower, as far as a comparison with ASCII texts without a k sees it.
abbrev lower : Bytes → Bytes
lower [] = []
lower (c ∷ s) = (if leb b'A' c && leb c b'Z' then c + 32 else c) ∷ lower s

-- The value of a query parameter, empty where it is missing.
abbrev pub Query : Type 0
Query = Bytes → Bytes

unfoldable pub query_bool : Query → Bytes → Bool
query_bool q key =
    let v = lower (trim_space (q key)) in
    bytes_beq v (ascii "1")
    || bytes_beq v (ascii "true")
    || bytes_beq v (ascii "yes")
    || bytes_beq v (ascii "y")

unfoldable pub bounded : ℤ → ℤ → ℤ → ℤ
bounded low high n = if ltb_ℤ n low then low else if ltb_ℤ high n then high else n

unfoldable pub query_int64_bounded : Query → Bytes → ℤ → ℤ → ℤ → ℤ
unfolding bounded
query_int64_bounded q key default_value low high =
    let v = trim_space (q key) in
    if bytes_beq v []
    then default_value
    else elim (parse_int v) [ none ↦ default_value | some n ↦ bounded low high n ]
