-- ===== src/Admin/Text.antt =====
-- Texts as bytes: what internal/admin uses of strings, strconv and fmt.
use novagate.Base.{
  ℕ, suc, zero, ◌+◌, ◌-◌, ◌*◌, ◌^◌, Bool, true, false, ◌&&◌, ◌||◌, Option, none, some, List, [],
  ◌∷◌, ltb, leb, ◌==◌, length, All, ◌++◌, ◌≡◌, refl, ==_iff, if◌then◌else◌,
}
use novagate.Base.Int.{ℤ, pos, sub_ℕ}
use novagate.Base.Key.{bytes_beq}
use novagate.Protocol.Bytes.{Bytes}
use novagate.Protocol.Mapper.Text.{strip_first}

-- strings.HasPrefix
unfoldable pub has_prefix : Bytes → Bytes → Bool
has_prefix s [] = true
has_prefix [] (p ∷ ps) = false
has_prefix (c ∷ s) (p ∷ ps) = c == p && has_prefix s ps

-- strings.Contains
unfoldable pub contains_text : Bytes → Bytes → Bool
unfolding has_prefix
contains_text [] sub = bytes_beq sub []
contains_text (c ∷ s) sub = has_prefix (c ∷ s) sub || contains_text s sub

-- One more byte at the front of the first part.
abbrev pub onto_first : ℕ → List Bytes → List Bytes
onto_first c [] = (c ∷ []) ∷ []
onto_first c (p ∷ ps) = (c ∷ p) ∷ ps

-- strings.Split at one byte.
unfoldable pub split : Bytes → ℕ → List Bytes
split [] sep = [] ∷ []
split (c ∷ s) sep = let parts = split s sep in if c == sep then [] ∷ parts else onto_first c parts

abbrev pub is_digit : ℕ → Bool
is_digit c = leb b'0' c && leb c b'9'

-- The number that digits spell, none if another byte is among them.
unfoldable pub digits_value : ℕ → Bytes → Option ℕ
digits_value n [] = some n
digits_value n (c ∷ s) =
    let rest = digits_value (n * 10 + (c - b'0')) s in if is_digit c then rest else none

-- A magnitude with its sign, if it is an int64.
abbrev pub signed : Bool → Option ℕ → Option ℤ
signed minus none = none
signed true (some n) = if leb n (2 ^ 63) then some (sub_ℕ 0 n) else none
signed false (some n) = if ltb n (2 ^ 63) then some (pos n) else none

abbrev nonempty_value : Bytes → Option ℕ
nonempty_value [] = none
nonempty_value (c ∷ s) = digits_value 0 (c ∷ s)

-- strconv.ParseInt(s, 10, 64), and strconv.Atoi where int has 64 bits.
unfoldable pub parse_int : Bytes → Option ℤ
unfolding digits_value
parse_int [] = none
parse_int (c ∷ s) =
    if c == b'-'
    then signed true (nonempty_value s)
    else if c == b'+'
    then signed false (nonempty_value s)
    else signed false (digits_value 0 (c ∷ s))

-- The digits at the front.
unfoldable pub leading_digits : Bytes → Bytes
leading_digits [] = []
leading_digits (c ∷ s) = let rest = leading_digits s in if is_digit c then c ∷ rest else []

-- The blanks in front of a number; a line's end there is an error.
unfoldable pub skip_blanks : ℕ → Bytes → Option Bytes
unfolding strip_first
skip_blanks zero s = none
skip_blanks (suc fuel) [] = some []
skip_blanks (suc fuel) (c ∷ s) =
    let wide : Option Bytes = elim (strip_first (c ∷ s)) [
      | none ↦ some (c ∷ s)
      | some r ↦ skip_blanks fuel r
    ] in
    if c == b'\n' then none else wide

unfoldable pub scan_number : Bytes → Option ℤ
unfolding leading_digits digits_value
scan_number [] = none
scan_number (c ∷ s) =
    if c == b'-'
    then signed true (nonempty_value (leading_digits s))
    else if c == b'+'
    then signed false (nonempty_value (leading_digits s))
    else signed false (nonempty_value (leading_digits (c ∷ s)))

-- fmt.Sscanf(s, "%d", &n): the value that n then has.
unfoldable pub scan_int : Bytes → ℤ → ℤ
unfolding skip_blanks scan_number
scan_int s n = elim (skip_blanks (suc (length s)) s) [
  | none ↦ n
  | some r ↦ elim (scan_number r) [ none ↦ n | some v ↦ v ]
]

abbrev pub Lacks : ℕ → Bytes → Type 0
Lacks sep p = All (λ c. (c == sep) ≡ false) p

pub split-Lacks : (p : Bytes) (sep : ℕ) → Lacks sep p → split p sep ≡ p ∷ []
unfolding split
split-Lacks [] sep h = refl
split-Lacks (c ∷ p) sep (other, h) = rw (other, split-Lacks p sep h)

pub split-append :
    (p rest : Bytes) (sep : ℕ) → Lacks sep p → split (p ++ (sep ∷ rest)) sep ≡ p ∷ split rest sep
unfolding split
split-append [] rest sep h = rw ((==_iff sep sep).1 refl)
split-append (c ∷ p) rest sep (other, h) = rw (other, split-append p rest sep h)
