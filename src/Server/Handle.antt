-- ===== src/Server/Handle.antt =====
-- conn_handler.go: writeAll and handleFrame. SetWriteDeadline shows only in what conn.Write answers.
pub mod Write
pub mod Reply
pub mod Shape
use Prim.Native.Nat.{bit_and}
use novagate.Base.{
  ℕ, ◌+◌, Bool, true, false, not, Option, none, some, List, [], ◌∷◌, ◌++◌, Result, ok, err, map_err,
  ◌==◌, take, drop, if◌then◌else◌,
}
use novagate.Protocol.Bytes.{Bytes, has_flag}
use novagate.Protocol.Frame.{Frame, encode, flag_one_way, flag_compressed}
use novagate.Protocol.Compress.{BodyError, decode_frame_body, encode_frame_body}
use novagate.Protocol.Message.{Message, encode_message, decode_message}
use novagate.Server.Router.{dispatch}
use novagate.Server.Wire.{
  Wire, WriteResult, Exec, Env, ConnError, rate_limited, frame_panic, write_blocked, body_failed,
  message_failed, dispatch_failed, write_failed, pure, raise, lift, continue, ◌>>=◌, ◌>>◌,
  allow_now,
}

abbrev after_write : Wire → Bytes → WriteResult → List WriteResult → Wire
after_write s bytes w rest = record s { writes = rest; sent = s.sent ++ take w.accepted bytes }

-- The loop of writeAll, one conn.Write a round.
write_loop : List WriteResult → Bytes → Exec (Unit {0})
write_loop writes [] s = (ok tt, s)
write_loop [] (b ∷ bytes) s = (err write_blocked, s)
write_loop (w ∷ rest) (b ∷ bytes) s =
    let s' = after_write s (b ∷ bytes) w rest in
    elim w.failure [
      | some e ↦ (err (write_failed e), s')
      | none ↦ write_loop rest (drop w.accepted (b ∷ bytes)) s'
    ]

unfoldable pub write_all : Bytes → Exec (Unit {0})
unfolding write_loop
write_all bytes s = write_loop s.writes bytes s

-- A request id of 0 in the response stands for the request's.
unfoldable pub stamp : Message → Message → Message
stamp msg resp = if resp.request_id == 0 then record resp { request_id = msg.request_id } else resp

-- Encode panics on a body above the limit.
unfoldable pub encode_or_panic : Frame → Result ConnError Bytes
encode_or_panic f = elim (encode f) [ none ↦ err frame_panic | some out ↦ ok out ]

frame_of : Result BodyError (ℕ × Bytes) → Result ConnError Bytes
unfolding encode_or_panic
frame_of (err e) = err (body_failed e)
frame_of (ok (out_flags, out_body)) =
    encode_or_panic (record { version = 0; flags = out_flags; body = out_body })

-- The response's frame, compressed if the request's was. Its version is left 0, as in the source.
unfoldable pub response_bytes : Env → ℕ → Message → Message → Result ConnError Bytes
unfolding frame_of
response_bytes v flags msg resp =
    frame_of
      (encode_frame_body v.gzip (bit_and flags flag_compressed) (encode_message (stamp msg resp)))

respond : Env → ℕ → Message → Option Message → Exec (Unit {0})
respond v flags msg none = pure tt
respond v flags msg (some resp) =
    if has_flag flags flag_one_way
    then pure tt
    else (do out ← lift (response_bytes v flags msg resp); write_all out)

-- The frame's message, decompressed and decoded.
unfoldable pub request_of : Env → Frame → Result ConnError Message
request_of v frame = elim (map_err body_failed (decode_frame_body v.gzip (some frame))) [
  | err e ↦ err e
  | ok body ↦ map_err message_failed (decode_message body)
]

unfoldable pub answer : Env → Frame → Exec (Unit {0})
unfolding respond
answer v frame = do
  msg ← lift (request_of v frame)
  resp ← lift (map_err dispatch_failed (dispatch v.router msg))
  respond v frame.flags msg resp

unfoldable pub handle_frame : Env → Frame → Exec (Unit {0})
unfolding answer
handle_frame v frame = do
  allowed ← allow_now v
  if allowed then answer v frame else raise rate_limited
