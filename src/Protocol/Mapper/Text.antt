-- ===== src/Protocol/Mapper/Text.antt =====
-- strings.TrimSpace and strings.LastIndexByte on UTF-8 bytes.
use mathlib.Core.List.{reverse, reverse-reverse}
use novagate.Base.{
  length-reverse, ℕ, zero, suc, ◌<◌, ◌≤◌, ◌≡◌, Bool, ◌&&◌, ◌||◌, Option, none, some, [], ◌∷◌, leb,
  ◌==◌, length, arith, if◌then◌else◌, refl, Option-cases, inl, inr,
}
use novagate.Protocol.Bytes.{Bytes}

-- A white space character of one byte: tab to carriage return, and the blank.
abbrev is_space1 : ℕ → Bool
is_space1 a = (leb 9 a && leb a 13) || a == 32

-- U+0085 and U+00A0.
abbrev is_space2 : ℕ → ℕ → Bool
is_space2 a b = a == 0xC2 && (b == 0x85 || b == 0xA0)

-- U+1680, U+2000 to U+200A, U+2028, U+2029, U+202F, U+205F and U+3000.
abbrev is_space3 : ℕ → ℕ → ℕ → Bool
is_space3 a b c =
    (a == 0xE1 && b == 0x9A && c == 0x80)
    || (a == 0xE2
        && b == 0x80
        && ((leb 0x80 c && leb c 0x8A) || c == 0xA8 || c == 0xA9 || c == 0xAF))
    || (a == 0xE2 && b == 0x81 && c == 0x9F)
    || (a == 0xE3 && b == 0x80 && c == 0x80)

-- The text behind a leading white space character, if there is one.
unfoldable pub strip_first : Bytes → Option Bytes
strip_first [] = none
strip_first (a ∷ []) = if is_space1 a then some [] else none
strip_first (a ∷ b ∷ []) =
    if is_space1 a then some (b ∷ []) else if is_space2 a b then some [] else none
strip_first (a ∷ b ∷ c ∷ s) =
    if is_space1 a
    then some (b ∷ c ∷ s)
    else if is_space2 a b
    then some (c ∷ s)
    else if is_space3 a b c
    then some s
    else none

-- The same on the bytes in reverse order, for a trailing character.
unfoldable pub strip_last : Bytes → Option Bytes
strip_last [] = none
strip_last (a ∷ []) = if is_space1 a then some [] else none
strip_last (a ∷ b ∷ []) =
    if is_space1 a then some (b ∷ []) else if is_space2 b a then some [] else none
strip_last (a ∷ b ∷ c ∷ s) =
    if is_space1 a
    then some (b ∷ c ∷ s)
    else if is_space2 b a
    then some (c ∷ s)
    else if is_space3 c b a
    then some s
    else none

unfoldable pub strip_all : (Bytes → Option Bytes) → ℕ → Bytes → Bytes
strip_all strip zero s = s
strip_all strip (suc fuel) s = elim (strip s) [ none ↦ s | some r ↦ strip_all strip fuel r ]

-- Each round takes a byte at least, so as many rounds as there are bytes are enough.
unfoldable pub trim_space : Bytes → Bytes
unfolding strip_first strip_last strip_all
trim_space s =
    let front = strip_all strip_first (length s) s in
    reverse (strip_all strip_last (length front) (reverse front))

unfoldable pub last_index_byte : Bytes → ℕ → Option ℕ
last_index_byte [] c = none
last_index_byte (x ∷ s) c = elim (last_index_byte s c) [
  | some i ↦ some (suc i)
  | none ↦ if x == c then some 0 else none
]

strip_first-lt : (s r : Bytes) → strip_first s ≡ some r → length r < length s
unfolding strip_first
strip_first-lt [] r e = cc
strip_first-lt (a ∷ []) r e = ground arith
strip_first-lt (a ∷ b ∷ []) r e = ground arith
strip_first-lt (a ∷ b ∷ c ∷ s) r e = ground arith

strip_last-lt : (s r : Bytes) → strip_last s ≡ some r → length r < length s
unfolding strip_last
strip_last-lt [] r e = cc
strip_last-lt (a ∷ []) r e = ground arith
strip_last-lt (a ∷ b ∷ []) r e = ground arith
strip_last-lt (a ∷ b ∷ c ∷ s) r e = ground arith

-- With enough fuel nothing is left to strip.
module _ (strip : Bytes → Option Bytes)
    (shrinks : (s r : Bytes) → strip s ≡ some r → length r < length s) where
  strip_all-done : (fuel : ℕ) (s : Bytes) → length s ≤ fuel → strip (strip_all strip fuel s) ≡ none
  unfolding strip_all
  strip_all-done zero s h = elim (Option-cases (strip s)) [
    | inl done ↦ done
    | inr (r, e) ↦ absurd (omega (arith, shrinks s r e))
  ]
  strip_all-done (suc fuel) s h = elim (Option-cases (strip s)) [
    | inl done ↦ rw (done, strip_all) done
    | inr (r, e) ↦ rw (e, strip_all) (strip_all-done fuel r (omega (arith, shrinks s r e)))
  ]

  -- Where nothing can be stripped the text stays.
  strip_all-fixed : (fuel : ℕ) (s : Bytes) → strip s ≡ none → strip_all strip fuel s ≡ s
  unfolding strip_all
  strip_all-fixed zero s h = refl
  strip_all-fixed (suc fuel) s h = rw (h, strip_all)

-- No white space stands at the end of a trimmed text.
pub strip_last-trim_space : (s : Bytes) → strip_last (reverse (trim_space s)) ≡ none
unfolding trim_space
strip_last-trim_space s =
    let front = strip_all strip_first (length s) s in
    rw reverse-reverse (
      strip_all-done strip_last strip_last-lt (length front) (reverse front)
        (omega (arith, length-reverse front)))
