-- ===== src/Protocol/Frame/RoundTrip.antt =====
-- protocol/frame.go: Encode and Decode are inverse to each other.
use novagate.Base.{
  ℕ, suc, ◌+◌, ◌-◌, ◌*◌, ◌≤◌, ◌≡◌, ◌⊎◌, inl, inr, refl, sym, ap, ◌∙◌, Option, none, some, [], ◌∷◌,
  ◌++◌, Result, ok, err, arith, length, length-append, length-take, take, All, take-append,
  take-length,
}
use mathlib.Core.List.{append-nil}
use novagate.Protocol.Bytes.{Bytes, IsByte, slice}
use novagate.Protocol.Frame.{Frame, FrameError, decode, encode, frame_version}
use novagate.Protocol.Frame.Stream.{decode-append, decode_bounds, decode_consumes}

-- A version that Encode turns into the supported one.
abbrev pub IsCurrent : ℕ → Type 0
IsCurrent v = (v ≡ 0) ⊎ (v ≡ frame_version)

take_body : (body rest : Bytes) → take (length body) (body ++ rest) ≡ body
take_body body rest = take-append (length body) body rest (omega arith) ∙ take-length body

-- Decode reads back the frame that Encode wrote under a current version, with the version filled in,
-- and consumes exactly the bytes written, whatever follows them.
pub decode-encode :
    (f : Frame) (bytes rest : Bytes)
    → IsCurrent f.version
    → encode f ≡ some bytes
    → decode (bytes ++ rest) ≡ ok (some (record f { version = frame_version }, length bytes))
unfolding encode decode slice
decode-encode f bytes rest v e = ground (arith, length-append f.body rest, take_body f.body rest)

-- The eight header bytes that encode a frame with a body of `len` bytes.
header_bytes :
    (b0 b1 b2 b3 b4 b5 b6 b7 : ℕ) (rest : Bytes)
    → All IsByte (b0 ∷ b1 ∷ b2 ∷ b3 ∷ b4 ∷ b5 ∷ b6 ∷ b7 ∷ [])
    → {f : Frame} {n : ℕ} → decode (b0 ∷ b1 ∷ b2 ∷ b3 ∷ b4 ∷ b5 ∷ b6 ∷ b7 ∷ rest) ≡ ok (some (f, n))
    → encode f ≡ some (b0 ∷ b1 ∷ b2 ∷ b3 ∷ b4 ∷ b5 ∷ b6 ∷ b7 ∷ take (n - 8) rest)
unfolding decode encode slice
header_bytes b0 b1 b2 b3 b4 b5 b6 b7 rest h e =
    ground (arith, length-take (((b4 * 256 + b5) * 65536) + (b6 * 256 + b7)) rest)

take_header :
    (b0 b1 b2 b3 b4 b5 b6 b7 n : ℕ) (rest : Bytes)
    → 8 ≤ n
    → take n (b0 ∷ b1 ∷ b2 ∷ b3 ∷ b4 ∷ b5 ∷ b6 ∷ b7 ∷ rest)
      ≡ b0 ∷ b1 ∷ b2 ∷ b3 ∷ b4 ∷ b5 ∷ b6 ∷ b7 ∷ take (n - 8) rest
take_header b0 b1 b2 b3 b4 b5 b6 b7 n rest h =
    let e : n ≡ suc (suc (suc (suc (suc (suc (suc (suc (n - 8)))))))) = omega arith in
    ap (λ m. take m (b0 ∷ b1 ∷ b2 ∷ b3 ∷ b4 ∷ b5 ∷ b6 ∷ b7 ∷ rest)) e

-- Whatever bytes Decode accepts as a frame are the bytes that Encode writes for that frame: there is
-- no second spelling.
pub encode-decode :
    (buf : Bytes) {f : Frame} {n : ℕ}
    → All IsByte buf
    → decode buf ≡ ok (some (f, n))
    → encode f ≡ some (take n buf)
encode-decode (b0 ∷ b1 ∷ b2 ∷ b3 ∷ b4 ∷ b5 ∷ b6 ∷ b7 ∷ rest) {f} {n} h e =
    header_bytes b0 b1 b2 b3 b4 b5 b6 b7 rest (omega arith) e
    ∙ ap some (
        sym (
          take_header b0 b1 b2 b3 b4 b5 b6 b7 n rest
            (decode_consumes (b0 ∷ b1 ∷ b2 ∷ b3 ∷ b4 ∷ b5 ∷ b6 ∷ b7 ∷ rest) e)))
encode-decode buf h e = unfold decode in ground arith

pub decode-cases :
    (r : Result FrameError (Option (Frame × ℕ)))
    → (r ≡ ok none)
      ⊎ ((f : Frame) × (n : ℕ) × (r ≡ ok (some (f, n))))
      ⊎ ((x : FrameError) × (r ≡ err x))
decode-cases (ok none) = inl refl
decode-cases (ok (some (f, n))) = inr (inl (f, n, refl))
decode-cases (err x) = inr (inr (x, refl))

-- On every proper prefix of a frame that Encode wrote under a current version, Decode waits: it
-- neither fails nor takes the prefix for a frame.
pub decode_waits :
    (f : Frame) (bytes front back : Bytes) (x : ℕ)
    → IsCurrent f.version
    → encode f ≡ some bytes
    → bytes ≡ front ++ (x ∷ back)
    → decode front ≡ ok none
decode_waits f bytes front back x v e s = elim (decode-cases (decode front)) [
  | inl waits ↦ waits
  | inr (inl (g, n, r)) ↦ ground (
    arith,
    whole,
    decode-append front (x ∷ back),
    decode_bounds front r,
    length-append front (x ∷ back),
  )
  | inr (inr (y, r)) ↦ ground (arith, whole, decode-append front (x ∷ back))
]
  where
    whole :
        decode (front ++ (x ∷ back))
        ≡ ok (some (record f { version = frame_version }, length (front ++ (x ∷ back))))
    whole = rw (append-nil, s) at (decode-encode f bytes [] v e)
