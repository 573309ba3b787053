-- ===== src/Server/Conn/Answer.antt =====
-- conn_handler.go, processBufferedFrames: a request in the buffer, from its bytes to the reply's.
use novagate.Base.{
  ℕ, ◌+◌, ◌≤◌, ◌≡◌, refl, ap, ◌∙◌, true, false, none, some, ◌++◌, ok, ltb, length, drop, All, arith,
  drop-append, drop-length,
}
use novagate.Protocol.Bytes.{Bytes, has_flag}
use novagate.Protocol.Frame.{Frame, encode, decode, frame_version, flag_one_way}
use novagate.Protocol.Frame.Stream.{decode_consumes}
use novagate.Protocol.Frame.RoundTrip.{IsCurrent, decode-encode}
use novagate.Protocol.Message.{Message}
use novagate.Server.Router.{dispatch}
use novagate.Server.Wire.{Wire, Env, allow_now}
use novagate.Server.Handle.{response_bytes, request_of, handle_frame}
use novagate.Server.Handle.Write.{Progresses}
use novagate.Server.Handle.Reply.{handle_frame_answers}
use novagate.Server.Conn.{frames_loop, finish, process_buffered_frames}
use novagate.Server.Conn.Loop.{frames, frames-step}
use novagate.Server.Conn.Chunks.{continue-ok}

frames_end :
    (v : Env) (buf : Bytes) (n : ℕ) (t : Wire)
    → decode (drop n buf) ≡ ok none
    → frames v buf n t ≡ (ok n, t)
unfolding frames_loop
frames_end v buf n t waits = rw (waits, frames_loop)

module _ (v : Env) (w : Wire) (f : Frame) {msg resp : Message} {bytes rest out : Bytes}
    (current : IsCurrent f.version) (sent : encode f ≡ some bytes) (waits : decode rest ≡ ok none)
    (allowed : (allow_now v w).0 ≡ ok true)
    (request : request_of v (record f { version = frame_version }) ≡ ok msg)
    (two_way : has_flag f.flags flag_one_way ≡ false)
    (answered : dispatch v.router msg ≡ ok (some resp))
    (encoded : response_bytes v f.flags msg resp ≡ ok out) (net : All Progresses w.writes)
    (room : length out ≤ length w.writes) where
  behind : drop (length bytes) (bytes ++ rest) ≡ rest
  behind =
      drop-append (length bytes) bytes rest (omega arith) ∙ ap (λ b. b ++ rest) (drop-length bytes)

  -- A request that a peer encoded under a current version, with the beginning of the next one behind
  -- it: if the rate limiter allows it, it decodes, is not one-way and has a response that encodes,
  -- and the network takes at least a byte in each of as many writes as bytes, then
  -- processBufferedFrames consumes its frame, leaves what is behind it in the buffer, and sends
  -- exactly the response's bytes.
  pub request_answered :
      ((process_buffered_frames v (record { wire = w; buf = bytes ++ rest })).0 ≡ ok tt)
      × ((process_buffered_frames v (record { wire = w; buf = bytes ++ rest })).1.buf ≡ rest)
      × ((process_buffered_frames v (record { wire = w; buf = bytes ++ rest })).1.wire.sent
          ≡ w.sent ++ out)
  unfolding process_buffered_frames finish
  request_answered =
      let buf = bytes ++ rest in
      let g : Frame = record f { version = frame_version } in
      let read = decode-encode f bytes rest current sent in
      let (done, all) =
        handle_frame_answers v g w allowed request two_way answered encoded net room in
      let t = (handle_frame v g w).1 in
      let zero_more : 0 + length bytes ≡ length bytes = omega arith in
      let whole : frames v buf 0 w ≡ (ok (length bytes), t) =
        frames-step v buf 0 w (omega arith) read
        ∙ continue-ok (handle_frame v g w) (frames v buf (0 + length bytes)) (ap (λ r. (r, t)) done)
        ∙ ap (λ m. frames v buf m t) zero_more
        ∙ frames_end v buf (length bytes) t (ap decode behind ∙ waits) in
      let some_bytes : ltb 0 (length bytes) ≡ true = ground (arith, decode_consumes buf read) in
      rw (whole, some_bytes) (refl, behind, all)
