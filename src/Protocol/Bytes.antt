-- ===== src/Protocol/Bytes.antt =====
-- Byte slices as lists of numbers, encoding/binary's big-endian words, and single-bit flags.
use Prim.Native.Nat.{bit_and}
use novagate.Base.{
  ℕ, ◌+◌, ◌-◌, ◌*◌, ◌/◌, ◌%◌, ◌^◌, ◌≤◌, ◌<◌, ◌≡◌, ap, ◌∙◌, Bool, not, List, [], ◌∷◌, ◌++◌, arith,
  ◌==◌, length, get_or, take, drop, take-append, drop-append, length-drop,
}

abbrev pub Bytes : Type 0
Bytes = List ℕ

abbrev pub IsByte : ℕ → Type 0
IsByte b = b < 2 ^ 8

abbrev pub byte_at : Bytes → ℕ → ℕ
byte_at buf i = get_or buf i 0

-- buf[lo:hi], where hi is at most the length.
unfoldable pub slice : Bytes → ℕ → ℕ → Bytes
slice buf lo hi = take (hi - lo) (drop lo buf)

-- binary.BigEndian.Uint16(buf[i:i+2]), and so on.
abbrev pub uint16 : Bytes → ℕ → ℕ
uint16 buf i = byte_at buf i * 2 ^ 8 + byte_at buf (i + 1)

abbrev pub uint32 : Bytes → ℕ → ℕ
uint32 buf i = uint16 buf i * 2 ^ 16 + uint16 buf (i + 2)

abbrev pub uint64 : Bytes → ℕ → ℕ
uint64 buf i = uint32 buf i * 2 ^ 32 + uint32 buf (i + 4)

-- binary.BigEndian.PutUint16, and so on.
abbrev pub put_uint16 : ℕ → Bytes
put_uint16 v = (v / 2 ^ 8 % 2 ^ 8) ∷ (v % 2 ^ 8) ∷ []

abbrev pub put_uint32 : ℕ → Bytes
put_uint32 v = put_uint16 (v / 2 ^ 16) ++ put_uint16 (v % 2 ^ 16)

abbrev pub put_uint64 : ℕ → Bytes
put_uint64 v = put_uint32 (v / 2 ^ 32) ++ put_uint32 (v % 2 ^ 32)

-- flags & flag != 0
unfoldable pub has_flag : ℕ → ℕ → Bool
has_flag flags flag = not (bit_and flags flag == 0)

pub slice-append :
    (buf more : Bytes) (lo hi : ℕ)
    → lo ≤ hi
    → hi ≤ length buf
    → slice (buf ++ more) lo hi ≡ slice buf lo hi
unfolding slice
slice-append buf more lo hi h k =
    ap (take (hi - lo)) (drop-append lo buf more (omega arith))
    ∙ take-append (hi - lo) (drop lo buf) more (omega (arith, length-drop lo buf))
