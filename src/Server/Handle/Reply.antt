-- ===== src/Server/Handle/Reply.antt =====
-- conn_handler.go, handleFrame: the reply that a request gets.
use Prim.Native.Nat.{bit_and}
use novagate.Base.{
  ℕ, ltb, ◌+◌, ◌^◌, ◌≤◌, ◌<◌, ◌≡◌, refl, inl, true, false, some, ◌∷◌, ◌++◌, Result, ok, err, length,
  All, arith,
}
use novagate.Protocol.Bytes.{Bytes, has_flag, put_uint16, put_uint32}
use novagate.Protocol.Frame.{
  Frame, frame_magic, frame_version, encode, decode, max_frame_body, flag_one_way, flag_compressed,
}
use novagate.Protocol.Frame.RoundTrip.{decode-encode}
use novagate.Protocol.Compress.{BodyError, encode_frame_body, decode_frame_body}
use novagate.Protocol.Compress.RoundTrip.{IsFaithful, decode_frame_body-encode_frame_body}
use novagate.Protocol.Message.{
  Message, encode_message, decode_message, decode_message-encode_message,
}
use novagate.Server.Router.{dispatch}
use novagate.Server.Wire.{Wire, Env, frame_panic, allow_now, continue}
use novagate.Server.Handle.{
  stamp, encode_or_panic, frame_of, response_bytes, request_of, answer, handle_frame, write_all,
}
use novagate.Server.Handle.Write.{Progresses, write_all_done}

frame_of_inv :
    (r : Result BodyError (ℕ × Bytes)) {out : Bytes}
    → frame_of r ≡ ok out
    → (flags : ℕ) × (body : Bytes) × (r ≡ ok (flags, body))
      × (encode (record { version = 0; flags = flags; body = body }) ≡ some out)
unfolding frame_of
frame_of_inv (err e) h = cc
frame_of_inv (ok (flags, body)) h = (flags, body, refl, ground arith)

command-stamp : (msg resp : Message) → (stamp msg resp).command ≡ resp.command
unfolding stamp
command-stamp msg resp = ground arith

pub request_of_ok :
    (v : Env) (f : Frame) (body : Bytes) {m : Message}
    → decode_frame_body v.gzip (some f) ≡ ok body
    → decode_message body ≡ ok m
    → request_of v f ≡ ok m
unfolding request_of
request_of_ok v f body p q = rw (p, request_of, q)

pub response_decodes :
    (v : Env) (flags : ℕ) (msg resp : Message) (out rest : Bytes)
    → IsFaithful v.gzip
    → resp.command < 2 ^ 16
    → (stamp msg resp).request_id < 2 ^ 64
    → length (encode_message (stamp msg resp)) ≤ max_frame_body
    → response_bytes v flags msg resp ≡ ok out
    → (f : Frame) × (decode (out ++ rest) ≡ ok (some (f, length out)))
      × (request_of v f ≡ ok (stamp msg resp))
unfolding response_bytes
response_decodes v flags msg resp out rest faithful hc hr fits e =
    let reply = stamp msg resp in
    let (flags', body, zipped, framed) =
      frame_of_inv (encode_frame_body v.gzip (bit_and flags flag_compressed) (encode_message reply))
        e in
    let f : Frame = record { version = 1; flags = flags'; body = body } in
    let (_, unzipped) =
      decode_frame_body-encode_frame_body v.gzip (bit_and flags flag_compressed) 1
        (encode_message reply) body faithful fits zipped in
    (
      f,
      decode-encode (record { version = 0; flags = flags'; body = body }) out rest (inl refl)
          framed,
      request_of_ok v f (encode_message reply) unzipped
          (decode_message-encode_message reply (rw command-stamp hc) hr),
    )

-- A one-way request is never answered, whatever comes of it.
one_way_silent :
    (v : Env) (frame : Frame) (s : Wire)
    → has_flag frame.flags flag_one_way ≡ true
    → (handle_frame v frame s).1.sent ≡ s.sent
unfolding handle_frame allow_now
one_way_silent v frame s h = ground arith

-- A body under the flags that an uncompressed request leaves is not touched.
encode_plain :
    (v : Env) (flags : ℕ) (body : Bytes)
    → has_flag flags flag_compressed ≡ false
    → encode_frame_body v.gzip (bit_and flags flag_compressed) body ≡ ok (0, body)
unfolding has_flag
encode_plain v flags body h =
    let e : bit_and flags flag_compressed ≡ 0 = ground arith in
    rw e (unfold encode_frame_body in refl)

frame_of_big :
    (body : Bytes) → max_frame_body < length body → frame_of (ok (0, body)) ≡ err frame_panic
unfolding frame_of encode
frame_of_big body h = ground arith

frame_of_short :
    (body : Bytes)
    → length body ≤ max_frame_body
    → (out : Bytes) × (frame_of (ok (0, body)) ≡ ok out) × (length out ≡ 8 + length body)
unfolding frame_of encode_or_panic encode
frame_of_short body h =
    let small : ltb max_frame_body (length body) ≡ false = ground arith in
    (
      put_uint16 frame_magic ++ (frame_version ∷ 0 ∷ put_uint32 (length body)) ++ body,
      rw (frame_of, encode_or_panic, encode, small) refl,
      omega arith,
    )

-- A response within the limit of a body, to a request without flags, has its bytes: eight more than its
-- message.
pub response_bytes_plain :
    (v : Env) (msg resp : Message)
    → length (encode_message (stamp msg resp)) ≤ max_frame_body
    → (out : Bytes) × (response_bytes v 0 msg resp ≡ ok out)
      × (length out ≡ 8 + length (encode_message (stamp msg resp)))
unfolding response_bytes
response_bytes_plain v msg resp fits =
    let reply = encode_message (stamp msg resp) in
    let (out, framed, n) = frame_of_short reply fits in
    (out, rw (encode_plain v 0 reply (unfold has_flag in refl)) framed, n)

module _ (v : Env) (frame : Frame) (s : Wire) {msg : Message}
    (allowed : (allow_now v s).0 ≡ ok true) (request : request_of v frame ≡ ok msg)
    (two_way : has_flag frame.flags flag_one_way ≡ false) where
  handle-answer : handle_frame v frame s ≡ answer v frame (allow_now v s).1
  unfolding handle_frame allow_now
  handle-answer = ground arith

  answer-write :
      {resp : Message} (t : Wire)
      → dispatch v.router msg ≡ ok (some resp)
      → answer v frame t ≡ continue (response_bytes v frame.flags msg resp, t) write_all
  unfolding answer
  answer-write t d = rw (request, d, two_way)

  -- Once the limiter, the frame and the handler agree, a request that is not one-way is answered by
  -- exactly the response's bytes, if the network takes them: at least a byte a write, no failure,
  -- and as many writes as bytes.
  pub handle_frame_answers :
      {resp : Message} {out : Bytes}
      → dispatch v.router msg ≡ ok (some resp)
      → response_bytes v frame.flags msg resp ≡ ok out
      → All Progresses s.writes
      → length out ≤ length s.writes
      → ((handle_frame v frame s).0 ≡ ok tt) × ((handle_frame v frame s).1.sent ≡ s.sent ++ out)
  handle_frame_answers {resp} {out} d r net room =
      rw (handle-answer, answer-write (allow_now v s).1 d, r)
        (unfold allow_now in write_all_done out (allow_now v s).1 net room)

  -- If an allowed, uncompressed request that is not one-way gets a response whose message is longer
  -- than 1 MiB, Encode panics: handleFrame returns no error that the caller could handle.
  pub handle_frame_panics :
      {resp : Message}
      → has_flag frame.flags flag_compressed ≡ false
      → dispatch v.router msg ≡ ok (some resp)
      → max_frame_body < length (encode_message (stamp msg resp))
      → (handle_frame v frame s).0 ≡ err frame_panic
  handle_frame_panics {resp} plain d big =
      let reply = encode_message (stamp msg resp) in
      let panics : response_bytes v frame.flags msg resp ≡ err frame_panic =
        unfold response_bytes in
        rw (encode_plain v frame.flags reply plain) (frame_of_big reply big) in
      rw (handle-answer, answer-write (allow_now v s).1 d, panics)
