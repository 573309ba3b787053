-- ===== src/Codec/Flags.antt =====
-- internal/codec/message_codec.go, parseFlags, and the strconv.ParseUint(x, 0, 8) that it calls.
use Prim.Native.Nat.{bit_or}
use novagate.Base.{
  ℕ, ◌+◌, ◌-◌, ◌*◌, ◌%◌, ◌^◌, ◌<◌, ◌≤◌, ◌≡◌, Bool, true, false, not, ◌&&◌, ◌||◌, Option, none, some,
  [], ◌∷◌, arith, leb, ltb, ◌==◌, if◌then◌else◌, Option-cases, inl, inr,
}
use novagate.Base.Int.{ℤ, pos, negsuc}
use novagate.Protocol.Bytes.{Bytes}

-- A tag's value by its dynamic type: an unsigned or a signed integer of any width, a text, or none.
pub data TagValue : Type 0 where
  tag_uint : ℕ → TagValue
  tag_int : ℤ → TagValue
  tag_string : Bytes → TagValue
  tag_other : TagValue

-- strconv's lower: c | ('x' - 'X')
abbrev lower : ℕ → ℕ
lower c = bit_or c 0x20

digit_of : ℕ → Option ℕ
digit_of c =
    if leb b'0' c && leb c b'9'
    then some (c - b'0')
    else if leb b'a' (lower c) && leb (lower c) b'z'
    then some (lower c - b'a' + 10)
    else none

-- The loop over the digits: `none` on a bad digit or a value above 255. Underscores are passed over.
digits_loop : ℕ → Bytes → ℕ → Option ℕ
digits_loop base [] n = some n
digits_loop base (c ∷ s) n =
    let skip = digits_loop base s n in
    let next = λ (d : ℕ). digits_loop base s (n * base + d) in
    if c == b'_' then skip else elim (digit_of c) [
      | none ↦ none
      | some d ↦ if leb base d || ltb 255 (n * base + d) then none else next d
    ]

-- What underscoreOK saw last: a digit or a base prefix, an underscore, or anything else.
pub data Saw : Type 0 where
  saw_digit saw_underscore saw_other : Saw

underscore_loop : Bool → Saw → Bytes → Bool
underscore_loop hex saw_underscore [] = false
underscore_loop hex saw [] = true
underscore_loop hex saw (c ∷ s) =
    let digit = underscore_loop hex saw_digit s in
    let underscore = underscore_loop hex saw_underscore s in
    let other = underscore_loop hex saw_other s in
    if (leb b'0' c && leb c b'9') || (hex && leb b'a' (lower c) && leb (lower c) b'f')
    then digit
    else elim saw [
      | saw_digit ↦ if c == b'_' then underscore else other
      | saw_underscore ↦ false
      | saw_other ↦ if c == b'_' then false else other
    ]

abbrev is_prefix_letter : ℕ → Bool
is_prefix_letter c = lower c == b'b' || lower c == b'o' || lower c == b'x'

-- No sign can stand in front: ParseUint takes none.
underscore_ok : Bytes → Bool
underscore_ok [] = true
underscore_ok (c ∷ []) = underscore_loop false saw_other (c ∷ [])
underscore_ok (c ∷ d ∷ s) =
    if c == b'0' && is_prefix_letter d
    then underscore_loop (lower d == b'x') saw_digit s
    else underscore_loop false saw_other (c ∷ d ∷ s)

has_underscore : Bytes → Bool
has_underscore [] = false
has_underscore (c ∷ s) = c == b'_' || has_underscore s

-- The base by the prefix, and the digits behind it.
base_of : Bytes → ℕ × Bytes
base_of [] = (10, [])
base_of (c ∷ []) = if c == b'0' then (8, []) else (10, c ∷ [])
base_of (c ∷ d ∷ []) = if c == b'0' then (8, d ∷ []) else (10, c ∷ d ∷ [])
base_of (c ∷ d ∷ e ∷ s) =
    if not (c == b'0')
    then (10, c ∷ d ∷ e ∷ s)
    else if lower d == b'b'
    then (2, e ∷ s)
    else if lower d == b'o'
    then (8, e ∷ s)
    else if lower d == b'x'
    then (16, e ∷ s)
    else (8, d ∷ e ∷ s)

abbrev parse_digits : Bool → ℕ × Bytes → Option ℕ
parse_digits true parts = none
parse_digits false parts = digits_loop parts.0 parts.1 0

-- strconv.ParseUint(s, 0, 8), `none` on an error.
unfoldable pub parse_uint8 : Bytes → Option ℕ
unfolding digits_loop digit_of underscore_ok underscore_loop has_underscore base_of
parse_uint8 [] = none
parse_uint8 (c ∷ s) =
    parse_digits (has_underscore (base_of (c ∷ s)).1 && not (underscore_ok (c ∷ s)))
      (base_of (c ∷ s))

unfoldable pub parse_flags : TagValue → ℕ
parse_flags (tag_uint n) = n % 2 ^ 8
parse_flags (tag_int (pos n)) = n % 2 ^ 8
parse_flags (tag_int (negsuc n)) = 2 ^ 8 - 1 - n % 2 ^ 8
parse_flags (tag_string s) = elim (parse_uint8 s) [ none ↦ 0 | some u ↦ u ]
parse_flags tag_other = 0

digits_loop-le :
    (base : ℕ) (s : Bytes) (n u : ℕ) → n ≤ 255 → digits_loop base s n ≡ some u → u ≤ 255
unfolding digits_loop
digits_loop-le base [] n u h e = ground arith
digits_loop-le base (c ∷ s) n u h e = elim (Option-cases (digit_of c)) [
  | inl bad ↦ ground (arith, digits_loop-le base s n u)
  | inr (d, digit) ↦
      ground (arith, digits_loop-le base s n u, digits_loop-le base s (n * base + d) u)
]

parse_digits-le :
    (bad : Bool) (parts : ℕ × Bytes) {u : ℕ} → parse_digits bad parts ≡ some u → u ≤ 255
parse_digits-le true parts {u} e = cc
parse_digits-le false parts {u} e = digits_loop-le parts.0 parts.1 0 u (omega arith) e

parse_uint8-le : (s : Bytes) {u : ℕ} → parse_uint8 s ≡ some u → u ≤ 255
unfolding parse_uint8
parse_uint8-le [] e = cc
parse_uint8-le (c ∷ s) e = parse_digits-le _ (base_of (c ∷ s)) e

-- Whatever the tag holds, the flags are a byte.
pub parse_flags-lt : (v : TagValue) → parse_flags v < 2 ^ 8
unfolding parse_flags
parse_flags-lt (tag_uint n) = omega arith
parse_flags-lt (tag_int (pos n)) = omega arith
parse_flags-lt (tag_int (negsuc n)) = omega arith
parse_flags-lt (tag_string s) = elim (Option-cases (parse_uint8 s)) [
  | inl bad ↦ rw (bad, parse_flags) (omega arith)
  | inr (u, e) ↦ rw (e, parse_flags) (omega (arith, parse_uint8-le s e))
]
parse_flags-lt tag_other = omega arith
