-- ===== src/Protocol/Frame/Stream.antt =====
-- protocol/frame.go, Decode on a growing buffer: an answer is final, and a frame lies in the buffer.
use novagate.Base.{
  ℕ, ◌+◌, ◌≤◌, ◌≡◌, ◌≢◌, none, some, ◌++◌, ok, arith, length, length-append, get_or-append,
  length-take, length-drop,
}
use novagate.Protocol.Bytes.{Bytes, slice, slice-append, uint32}
use novagate.Protocol.Frame.{Frame, decode, frame_header_len, max_frame_body, frame_version}

-- Once Decode has answered with a frame or an error, more bytes behind the buffer do not change
-- the answer.
pub decode-append : (buf more : Bytes) → decode buf ≢ ok none → decode (buf ++ more) ≡ decode buf
unfolding decode
decode-append buf more h = ground (
  arith,
  length-append buf more,
  get_or-append buf more 0 0,
  get_or-append buf more 1 0,
  get_or-append buf more 2 0,
  get_or-append buf more 3 0,
  get_or-append buf more 4 0,
  get_or-append buf more 5 0,
  get_or-append buf more 6 0,
  get_or-append buf more 7 0,
  slice-append buf more 8 (uint32 buf 4 + 8),
)

length-slice : (buf : Bytes) (len : ℕ) → len + 8 ≤ length buf → length (slice buf 8 (len + 8)) ≡ len
unfolding slice
length-slice buf len h = omega (arith, length-take {0}, length-drop {0})

-- A frame that Decode returns has the supported version, a body within the limit, and takes its
-- header and its body from the buffer: neither more than is there nor nothing.
pub decode_bounds :
    (buf : Bytes) {f : Frame} {n : ℕ}
    → decode buf ≡ ok (some (f, n))
    → (n ≡ frame_header_len + length f.body)
      × (n ≤ length buf)
      × (length f.body ≤ max_frame_body)
      × (f.version ≡ frame_version)
unfolding decode
decode_bounds buf e = ground (arith, length-slice buf (uint32 buf 4))

-- No frame is longer than its header and the largest body.
pub decode_consumes : (buf : Bytes) {f : Frame} {n : ℕ} → decode buf ≡ ok (some (f, n)) → 8 ≤ n
decode_consumes buf e = omega (arith, decode_bounds buf e)
