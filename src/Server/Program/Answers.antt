-- ===== src/Server/Program/Answers.antt =====
-- cmd/server/main.go: what a client of the program gets, from the bytes of a request to the reply's.
use novagate.Base.{
  ℕ, String, ◌+◌, ◌^◌, ◌≤◌, ◌<◌, ◌≡◌, refl, ap, ◌∙◌, inl, inr, true, Option, none, some, ◌++◌, ◌==◌,
  Result, ok, err, map_err, length, All, arith, if◌then◌else◌, Bool-cases, ==_iff,
}
use novagate.Base.Key.{get}
use novagate.Protocol.Bytes.{Bytes, has_flag}
use novagate.Protocol.Frame.{Frame, encode, decode, frame_version}
use novagate.Protocol.Compress.{decode_frame_body, validate_flags}
use novagate.Protocol.Compress.RoundTrip.{IsFaithful}
use novagate.Protocol.Message.{Message, encode_message, decode_message-encode_message}
use novagate.Protocol.Mapper.{Mapping}
use novagate.Server.Router.{
  Router, DispatchError, unknown_command, handler_failed, dispatch, bridge_protocol_handler,
  dispatch-register, new_router,
}
use novagate.Server.Registry.{
  ascii, cmd_ping, cmd_user_login, cmd_order_create, Handlers, dispatch_payload, register_handlers,
  dispatch-register_handlers,
}
use novagate.Server.Wire.{Wire, Env, allow_now}
use novagate.Server.Handle.{stamp, response_bytes, request_of}
use novagate.Server.Handle.Write.{Progresses}
use novagate.Server.Handle.Reply.{request_of_ok, response_bytes_plain, response_decodes}
use novagate.Server.Conn.{process_buffered_frames}
use novagate.Server.Conn.Answer.{request_answered}
use novagate.Server.Program.{bridge, setup}

-- What the program answers to a command, whatever the payload.
unfoldable pub reply_text : ℕ → Option Bytes
reply_text cmd =
    if cmd == cmd_ping
    then some (ascii "pong")
    else if cmd == cmd_user_login
    then some (ascii "ok")
    else if cmd == cmd_order_create
    then some (ascii "ok")
    else none

abbrev reply_to : Message → Bytes → Message
reply_to m text = record m { payload = text }

abbrev answered_by : Message → Option Bytes → Result DispatchError (Option Message)
answered_by m none = err (unknown_command m.command)
answered_by m (some text) = ok (some (reply_to m text))

module _ (error_text : DispatchError → String) where
  setup_lem :
      (m : Mapping) (handlers : Handlers) (r : Router) {m' : Mapping} {handlers' : Handlers}
      {r' : Router}
      → setup error_text m handlers r ≡ ok (m', handlers', r')
      → r'
        ≡ bridge error_text (register_handlers handlers) cmd_order_create (
            bridge error_text
              (register_handlers handlers)
              cmd_user_login
              (bridge error_text (register_handlers handlers) cmd_ping r))
  unfolding setup
  setup_lem m handlers r e = ground arith

  bridge_protocol_handler_lem :
      (handlers : Handlers) (cmd : ℕ) (m : Message) {text : Bytes}
      → dispatch_payload handlers cmd m.payload ≡ ok text
      → cmd ≡ m.command
      → bridge_protocol_handler cmd
          (λ payload. map_err error_text (dispatch_payload handlers cmd payload))
          m
        ≡ ok (some (reply_to m text))
  unfolding bridge_protocol_handler
  bridge_protocol_handler_lem handlers cmd m e same = rw (e, same)

  dispatch-bridge :
      (handlers : Handlers) (cmd : ℕ) (r : Router) (m : Message) {text : Bytes}
      → dispatch_payload handlers cmd m.payload ≡ ok text
      → dispatch (bridge error_text handlers cmd r) m
        ≡ (if cmd == m.command then ok (some (reply_to m text)) else dispatch r m)
  unfolding bridge
  dispatch-bridge handlers cmd r m e =
      dispatch-register r cmd _ m ∙ elim (Bool-cases (cmd == m.command)) [
        | inl hit ↦ rw hit (
            ap (map_err handler_failed)
              (bridge_protocol_handler_lem handlers cmd m e ((==_iff cmd m.command).0 hit)))
        | inr miss ↦ rw miss
      ]

  dispatch-new : (m : Message) → dispatch new_router m ≡ err (unknown_command m.command)
  unfolding dispatch get
  dispatch-new m = refl

  -- Once setup has returned, a new router answers each of the three commands with its text, under the
  -- request's id, whatever the payload, and knows no other command.
  pub dispatch-setup :
      (m : Mapping) (handlers : Handlers) (msg : Message) {m' : Mapping} {handlers' : Handlers}
      {r' : Router}
      → setup error_text m handlers new_router ≡ ok (m', handlers', r')
      → dispatch r' msg ≡ answered_by msg (reply_text msg.command)
  unfolding reply_text
  dispatch-setup m handlers msg e =
      let known = λ (cmd : ℕ). dispatch-register_handlers handlers cmd msg.payload in
      let table = register_handlers handlers in
      let r1 = bridge error_text table cmd_ping new_router in
      let r2 = bridge error_text table cmd_user_login r1 in
      rw (setup_lem m handlers new_router e) (
        dispatch-bridge table cmd_order_create r2 msg (known cmd_order_create)
        ∙ rw
            (
              dispatch-bridge table cmd_user_login r1 msg (known cmd_user_login),
              dispatch-bridge table cmd_ping new_router msg (known cmd_ping),
              dispatch-new msg,
            )
            (ground arith))

reply_text-le :
    (cmd : ℕ) {text : Bytes} → reply_text cmd ≡ some text → (length text ≤ 4) × (cmd < 2 ^ 16)
unfolding reply_text
reply_text-le cmd e = ground arith

length-encode_message : (m : Message) → length (encode_message m) ≡ 10 + length m.payload
unfolding encode_message
length-encode_message m = ground arith

stamp-reply_to : (m : Message) (text : Bytes) → stamp m (reply_to m text) ≡ reply_to m text
unfolding stamp
stamp-reply_to m text = ground arith

response_bytes_short :
    (v : Env) (m : Message) (text : Bytes)
    → length text ≤ 4
    → (out : Bytes) × (response_bytes v 0 m (reply_to m text) ≡ ok out) × (length out ≤ 22)
response_bytes_short v m text h =
    let size =
      ap length (ap encode_message (stamp-reply_to m text))
      ∙ length-encode_message (reply_to m text) in
    let (out, framed, n) = response_bytes_plain v m (reply_to m text) (omega arith) in
    (out, framed, omega arith)

request_of_plain :
    (v : Env) (m : Message)
    → m.command < 2 ^ 16
    → m.request_id < 2 ^ 64
    → request_of v (record { version = frame_version; flags = 0; body = encode_message m }) ≡ ok m
unfolding decode_frame_body validate_flags has_flag
request_of_plain v m hc hr =
    request_of_ok v _ (encode_message m) refl (decode_message-encode_message m hc hr)

-- A client of the program that sends a ping, a login or an order in a frame without flags, with the
-- beginning of its next frame behind it, is answered if the rate limiter allows it: with a faithful gzip,
-- an id of 64 bits and a network that takes at least a byte in each of 22 writes, the frame is consumed,
-- what is behind it stays in the buffer, and the bytes sent are one frame that the client decodes to the
-- command's text under the request's own id and command.
pub program_answers :
    (error_text : DispatchError → String) (v : Env) (w : Wire) (m m' : Mapping)
    (handlers handlers' : Handlers) (msg : Message) (text bytes rest : Bytes)
    → setup error_text m handlers new_router ≡ ok (m', handlers', v.router)
    → IsFaithful v.gzip
    → reply_text msg.command ≡ some text
    → msg.request_id < 2 ^ 64
    → encode (record { version = 0; flags = 0; body = encode_message msg }) ≡ some bytes
    → decode rest ≡ ok none
    → (allow_now v w).0 ≡ ok true
    → All Progresses w.writes
    → 22 ≤ length w.writes
    → (out : Bytes) × ((process_buffered_frames v (record { wire = w; buf = bytes ++ rest })).0
        ≡ ok tt)
      × ((process_buffered_frames v (record { wire = w; buf = bytes ++ rest })).1.buf ≡ rest)
      × ((process_buffered_frames v (record { wire = w; buf = bytes ++ rest })).1.wire.sent
          ≡ w.sent ++ out)
      × ((more : Bytes)
          → (f : Frame) × (decode (out ++ more) ≡ ok (some (f, length out)))
            × (request_of v f ≡ ok (reply_to msg text)))
program_answers error_text v w m m' handlers handlers' msg text bytes rest up faithful known hr sent
      waits allowed net room =
    let (short, hc) = reply_text-le msg.command known in
    let (out, framed, small) = response_bytes_short v msg text short in
    let answered = dispatch-setup error_text m handlers msg up ∙ ap (answered_by msg) known in
    let (done, left, all) =
      request_answered v w (record { version = 0; flags = 0; body = encode_message msg }) (inl refl)
        sent waits allowed (request_of_plain v msg hc hr) (unfold has_flag in refl) answered framed
        net (omega arith) in
    (
      out,
      done,
      left,
      all,
      λ more.
          let (f, read, decoded) =
            response_decodes v 0 msg (reply_to msg text) out more faithful hc
              (rw (stamp-reply_to msg text) hr)
              (rw (stamp-reply_to msg text, length-encode_message (reply_to msg text))
                (omega arith))
              framed in
          (f, read, rw (decoded, stamp-reply_to msg text)),
    )
