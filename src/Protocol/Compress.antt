-- ===== src/Protocol/Compress.antt =====
-- protocol/compress.go: flag validation, and gzip on frame bodies. compress/gzip is a parameter: what
-- a writer produces, and what a reader yields on some input before it ends or fails.
pub mod RoundTrip
use novagate.Base.{
  ℕ, ◌+◌, ◌≡◌, Bool, true, false, not, Option, none, some, Result, ok, err, ◌>>=◌, ◌>>◌, ltb, ◌==◌,
  length, take, if◌then◌else◌,
}
use novagate.Protocol.Bytes.{Bytes, has_flag}
use novagate.Protocol.Frame.{Frame, flag_compressed, flag_encrypted, max_frame_body}

-- What an open gzip reader yields: all its output, and whether it then ends with EOF or an error.
pub record Stream : Type 0 where
  pub output : Bytes
  pub intact : Bool

-- `compress d` is what Write and Close leave in the buffer, `none` if one of them fails; `open z` is
-- gzip.NewReader, `none` on a bad header.
pub record Gzip : Type 0 where
  pub compress : Bytes → Option Bytes
  pub open_reader : Bytes → Option Stream

pub data BodyError : Type 0 where
  nil_frame unsupported_flags gzip_failed invalid_max_output body_too_large : BodyError

unfoldable pub validate_flags : ℕ → Result BodyError (Unit {0})
unfolding has_flag
validate_flags flags = if has_flag flags flag_encrypted then err unsupported_flags else ok tt

-- io.ReadAll(io.LimitReader(zr, limit)): the reader's error shows if it comes within the limit.
unfoldable pub read_limited : ℕ → Stream → Result BodyError Bytes
read_limited limit s =
    if ltb limit (length s.output)
    then ok (take limit s.output)
    else if s.intact
    then ok s.output
    else err gzip_failed

module _ (g : Gzip) where
  unfoldable pub gzip_compress : Bytes → Result BodyError Bytes
  gzip_compress body = elim (g.compress body) [ none ↦ err gzip_failed | some out ↦ ok out ]

  unfoldable pub gzip_decompress : Bytes → ℕ → Result BodyError Bytes
  unfolding read_limited
  gzip_decompress body max_output = elim (g.open_reader body) [
    | none ↦ err gzip_failed
    | some zr ↦ if max_output == 0 then err invalid_max_output else (do
      out ← read_limited (max_output + 1) zr
      if ltb max_output (length out) then err body_too_large else ok out)
  ]

  -- The frame is a pointer, `none` if it is nil.
  unfoldable pub decode_frame_body : Option Frame → Result BodyError Bytes
  unfolding gzip_decompress validate_flags
  decode_frame_body none = err nil_frame
  decode_frame_body (some f) = do
    validate_flags f.flags
    if not (has_flag f.flags flag_compressed)
        then ok f.body
        else gzip_decompress f.body max_frame_body

  unfoldable pub encode_frame_body : ℕ → Bytes → Result BodyError (ℕ × Bytes)
  unfolding gzip_compress validate_flags
  encode_frame_body flags body = do
    validate_flags flags
    if not (has_flag flags flag_compressed)
        then ok (flags, body)
        else (do out ← gzip_compress body; ok (flags, out))
