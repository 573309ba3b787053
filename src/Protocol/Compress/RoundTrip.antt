-- ===== src/Protocol/Compress/RoundTrip.antt =====
-- protocol/compress.go: EncodeFrameBody and DecodeFrameBody, and the limit on decompressed bodies.
use novagate.Base.{
  ℕ, ◌≤◌, ◌<◌, ◌≡◌, ◌⊎◌, inl, inr, sym, ap, ◌∙◌, some, true, false, ok, err, arith, length,
  Bool-cases,
}
use novagate.Protocol.Bytes.{Bytes, has_flag}
use novagate.Protocol.Frame.{Frame, flag_compressed, flag_encrypted, max_frame_body}
use novagate.Protocol.Compress.{
  Gzip, unsupported_flags, gzip_compress, gzip_decompress, encode_frame_body, decode_frame_body,
}

-- What compress/gzip promises: a reader over compressed data yields the data and then EOF.
pub record IsFaithful (g : Gzip) : Type 0 where
  pub reads_back :
      (body out : Bytes)
      → g.compress body ≡ some out
      → g.open_reader out ≡ some (record { output = body; intact = true })

module _ (g : Gzip) where
  -- The limit is kept on any stream.
  gzip_decompress-le :
      (body out : Bytes) (max : ℕ) → gzip_decompress g body max ≡ ok out → length out ≤ max
  unfolding gzip_decompress
  gzip_decompress-le body out max e = ground arith

  gzip_decompress-gzip_compress :
      (body out : Bytes) (max : ℕ)
      → IsFaithful g
      → 0 < max
      → length body ≤ max
      → gzip_compress g body ≡ ok out
      → gzip_decompress g out max ≡ ok body
  unfolding gzip_decompress gzip_compress
  gzip_decompress-gzip_compress body out max faithful p fits e =
      ground (arith, faithful.reads_back body out)

  encode_cases :
      (flags : ℕ) (body out : Bytes) {flags' : ℕ}
      → encode_frame_body g flags body ≡ ok (flags', out)
      → (flags' ≡ flags)
        × (has_flag flags flag_encrypted ≡ false)
        × (((has_flag flags flag_compressed ≡ false) × (out ≡ body))
            ⊎ ((has_flag flags flag_compressed ≡ true) × (gzip_compress g body ≡ ok out)))
  unfolding encode_frame_body
  encode_cases flags body out e = ground arith

  decode_plain :
      (f : Frame)
      → has_flag f.flags flag_encrypted ≡ false
      → has_flag f.flags flag_compressed ≡ false
      → decode_frame_body g (some f) ≡ ok f.body
  unfolding decode_frame_body
  decode_plain f h k = rw (h, k)

  decode_compressed :
      (f : Frame)
      → has_flag f.flags flag_encrypted ≡ false
      → has_flag f.flags flag_compressed ≡ true
      → decode_frame_body g (some f) ≡ gzip_decompress g f.body max_frame_body
  unfolding decode_frame_body
  decode_compressed f h k = rw (h, k)

  pub decode_encrypted :
      (f : Frame)
      → has_flag f.flags flag_encrypted ≡ true
      → decode_frame_body g (some f) ≡ err unsupported_flags
  unfolding decode_frame_body
  decode_encrypted f h = rw h

  -- With a faithful gzip, DecodeFrameBody reads back a body within the limit that EncodeFrameBody
  -- encoded under any flags, and EncodeFrameBody leaves the flags as they are.
  pub decode_frame_body-encode_frame_body :
      (flags version : ℕ) (body out : Bytes) {flags' : ℕ}
      → IsFaithful g
      → length body ≤ max_frame_body
      → encode_frame_body g flags body ≡ ok (flags', out)
      → (flags' ≡ flags)
        × (decode_frame_body g (some (record { version = version; flags = flags'; body = out }))
            ≡ ok body)
  decode_frame_body-encode_frame_body flags version body out {flags'} faithful fits e =
      let f : Frame = record { version = version; flags = flags'; body = out } in
      let (same, plain, how) = encode_cases flags body out e in
      (
        same,
        elim how [
          | inl (raw, eq) ↦ decode_plain f (rw same plain) (rw same raw) ∙ ap ok eq
          | inr (zipped, z) ↦
              decode_compressed f (rw same plain) (rw same zipped)
              ∙ gzip_decompress-gzip_compress body out max_frame_body faithful (omega arith) fits z
        ],
      )

  -- A compressed frame never decodes to more than the limit, whatever stream the gzip reader yields.
  decode_frame_body-le :
      (f : Frame) (body : Bytes)
      → has_flag f.flags flag_compressed ≡ true
      → decode_frame_body g (some f) ≡ ok body
      → length body ≤ max_frame_body
  decode_frame_body-le f body h e = elim (Bool-cases (has_flag f.flags flag_encrypted)) [
    | inl k ↦ cc (decode_encrypted f k)
    | inr k ↦ gzip_decompress-le f.body body max_frame_body (sym (decode_compressed f k h) ∙ e)
  ]
