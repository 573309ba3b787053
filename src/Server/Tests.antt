-- ===== src/Server/Tests.antt =====
-- The server: a router with an echo, over connections that answer as given.
use mathlib.Core.List.{append-nil}
use novagate.Server.Conn.Answer.{request_answered}
use novagate.Base.{
  ℕ, zero, suc, ap, sym, ◌∙◌, ◌+◌, ◌-◌, ◌*◌, ◌<◌, ◌≤◌, ◌≡◌, ◌≢◌, refl, inr, true, none, some, List,
  [], ◌∷◌, ◌++◌, ok, err, length, All, arith,
}
use novagate.Base.Int.{pos, wrap64, ◌+ℤ◌, ◌-ℤ◌, ◌*ℤ◌, quot_ℤ}
use novagate.Base.Key.{get}
use novagate.Protocol.Bytes.{Bytes, has_flag, slice}
use novagate.Protocol.Frame.{Frame, encode, decode, max_frame_body}
use novagate.Protocol.Message.{Message, encode_message, decode_message}
use novagate.Protocol.Compress.{encode_frame_body, decode_frame_body}
use novagate.Protocol.Tests.{marked}
use novagate.Server.Context.{new_conn_context, allow, refill, spend, reserve, second}
use novagate.Server.Context.Bucket.{conn_at, allow_all, allow_all_bound}
use novagate.Server.Router.{Handler, dispatch}
use novagate.Server.Wire.{
  Wire, WriteResult, Env, frame_panic, quota_exceeded, out_of_fuel, allow_now,
}
use novagate.Server.Handle.{
  stamp, response_bytes, request_of, answer, handle_frame, encode_or_panic,
}
use novagate.Server.Handle.Write.{Progresses}
use novagate.Server.Handle.Reply.{handle_frame_panics}
use novagate.Server.Conn.{
  ReadResult, failed, frames_loop, finish, process_buffered_frames, read_into_buffer, conn_round,
  conn_loop, start, handle_conn,
}
use novagate.Server.Conn.Loop.{frames}
use novagate.Server.Conn.Chunks.{shift, frames-chunks}
use novagate.Server.Conn.Quota.{IsAccounted, start-IsAccounted, conn_round-IsAccounted}
use novagate.Server.Conn.Large.{IsQuiet, received, frame_above_quota}
use novagate.Server.Conn.Total.{handle_conn-fueled}

-- Command 1 answers 42 behind the request's id.
abbrev echo : Handler
echo m = ok (some (record { command = 1; request_id = 0; payload = 42 ∷ [] }))

abbrev env : Env
env = record { gzip = marked; router = record { handlers = (1, some echo) ∷ [] }; now = λ i. pos 0 }

abbrev write : WriteResult
write = record { accepted = 1; failure = none }

-- A peer that takes a byte a write, `n` times.
pub writes_of : ℕ → List WriteResult
writes_of zero = []
writes_of (suc n) = write ∷ writes_of n

pub length-writes_of : (n : ℕ) → length (writes_of n) ≡ n
unfolding writes_of
length-writes_of zero = refl
length-writes_of (suc n) = ap suc (length-writes_of n)

pub writes-progress : (n : ℕ) → All Progresses (writes_of n)
unfolding writes_of
writes-progress zero = tt
writes-progress (suc n) = ((omega arith, refl), writes-progress n)

zeros : ℕ → Bytes
zeros zero = []
zeros (suc n) = 0 ∷ zeros n

length-zeros : (n : ℕ) → length (zeros n) ≡ n
unfolding zeros
length-zeros zero = refl
length-zeros (suc n) = ap suc (length-zeros n)

abbrev wire : Wire
wire = record { cc = conn_at 0 100 0; ticks = 0; writes = writes_of 19; sent = [] }

abbrev request : Message
request = record { command = 1; request_id = 5; payload = [] }

abbrev request_frame : ℕ → Frame
request_frame flags = record {
  version = 1;
  flags = flags;
  body = 0 ∷ 1 ∷ 0 ∷ 0 ∷ 0 ∷ 0 ∷ 0 ∷ 0 ∷ 0 ∷ 5 ∷ [];
}

abbrev request_wire : ℕ → Bytes
request_wire flags =
    0xCA ∷ 0xFE ∷ 1 ∷ flags ∷ 0 ∷ 0 ∷ 0 ∷ 10 ∷ 0 ∷ 1 ∷ 0 ∷ 0 ∷ 0 ∷ 0 ∷ 0 ∷ 0 ∷ 0 ∷ 5 ∷ []

abbrev response : Message
response = record { command = 1; request_id = 0; payload = 42 ∷ [] }

abbrev response_wire : Bytes
response_wire =
    0xCA ∷ 0xFE ∷ 1 ∷ 0 ∷ 0 ∷ 0 ∷ 0 ∷ 11 ∷ 0 ∷ 1 ∷ 0 ∷ 0 ∷ 0 ∷ 0 ∷ 0 ∷ 0 ∷ 0 ∷ 5 ∷ 42 ∷ []

request_of-request : request_of env (request_frame 0) ≡ ok request
unfolding request_of decode_frame_body decode_message has_flag
request_of-request = refl

response_bytes-request : response_bytes env 0 request response ≡ ok response_wire
unfolding response_bytes encode_frame_body stamp encode_message encode_or_panic encode has_flag
response_bytes-request = refl

dispatch-request : dispatch env.router request ≡ ok (some response)
unfolding dispatch get
dispatch-request = refl

allowed : (allow_now env wire).0 ≡ ok true
unfolding allow_now allow refill spend wrap64 quot_ℤ ◌+ℤ◌ ◌-ℤ◌ ◌*ℤ◌
allowed = refl

-- A handler that answers a mebibyte of payload.
abbrev big_response : Message
big_response = record { command = 1; request_id = 0; payload = zeros (1024 * 1024) }

abbrev big_env : Env
big_env = record env { router = record { handlers = (1, some (λ m. ok (some big_response))) ∷ [] } }

allowed_big : (allow_now big_env wire).0 ≡ ok true
unfolding allow_now allow refill spend wrap64 quot_ℤ ◌+ℤ◌ ◌-ℤ◌ ◌*ℤ◌
allowed_big = refl

request_of-big : request_of big_env (request_frame 0) ≡ ok request
unfolding request_of decode_frame_body decode_message has_flag
request_of-big = refl

dispatch-big : dispatch big_env.router request ≡ ok (some big_response)
unfolding dispatch get
dispatch-big = refl

big_above : max_frame_body < length (encode_message (stamp request big_response))
unfolding encode_message stamp
big_above = omega (arith, length-zeros (1024 * 1024))

handle_frame_panics_example : (handle_frame big_env (request_frame 0) wire).0 ≡ err frame_panic
handle_frame_panics_example =
    handle_frame_panics big_env (request_frame 0) wire allowed_big request_of-big
      (unfold has_flag in refl) (unfold has_flag in refl) dispatch-big big_above

allow_all_bound_example :
    (allow_all (conn_at 0 3 0) (0 ∷ 1 ∷ second ∷ [])).1 * second ≤ 3 * second + 100 * (second - 0)
allow_all_bound_example =
    allow_all_bound 0 3 0 (0 ∷ 1 ∷ second ∷ []) second (omega arith) (omega arith) (omega arith)

handle_conn-fueled_example :
    (handle_conn marked
      (λ i. pos 0)
      (some env.router)
      (pos 0)
      []
      (record { chunk = request_wire 0; failure = none } ∷ [])).0
    ≢ failed out_of_fuel
handle_conn-fueled_example =
    handle_conn-fueled marked (λ i. pos 0) (some env.router) (pos 0) []
      (record { chunk = request_wire 0; failure = none } ∷ [])

abbrev half_read : ReadResult
half_read = record { chunk = 0xCA ∷ 0xFE ∷ []; failure = none }

conn_round-half : (conn_round env (pos 0) half_read (start env.now [])).0 ≡ ok tt
unfolding conn_round read_into_buffer reserve new_conn_context process_buffered_frames finish
    frames_loop decode wrap64 ◌+ℤ◌
conn_round-half = refl

conn_round-IsAccounted_example :
    IsAccounted (conn_round env (pos 0) half_read (start env.now [])).1
    × (decode (conn_round env (pos 0) half_read (start env.now [])).1.buf ≡ ok none)
conn_round-IsAccounted_example =
    conn_round-IsAccounted env (pos 0) half_read (start env.now []) (omega arith)
      (start-IsAccounted env.now []) conn_round-half

-- One byte a read.
reads_of : Bytes → List ReadResult
reads_of [] = []
reads_of (b ∷ bytes) = record { chunk = b ∷ []; failure = none } ∷ reads_of bytes

received-reads_of : (bytes : Bytes) → received (reads_of bytes) ≡ bytes
unfolding reads_of
received-reads_of [] = refl
received-reads_of (b ∷ bytes) = ap (λ bs. b ∷ bs) (received-reads_of bytes)

reads_of-IsQuiet : (bytes : Bytes) → All IsQuiet (reads_of bytes)
unfolding reads_of
reads_of-IsQuiet [] = tt
reads_of-IsQuiet (b ∷ bytes) = ((omega arith, refl), reads_of-IsQuiet bytes)

abbrev large_frame : Frame
large_frame = record { version = 1; flags = 0; body = zeros 300000 }

abbrev large_wire : Bytes
large_wire = 0xCA ∷ 0xFE ∷ 1 ∷ 0 ∷ 0 ∷ 4 ∷ 0x93 ∷ 0xE0 ∷ zeros 300000

encode-large : encode large_frame ≡ some large_wire
unfolding encode
encode-large = rw (length-zeros 300000)

frame_above_quota_example :
    ((conn_loop env (pos 0) (reads_of large_wire) (start env.now [])).0 ≡ failed quota_exceeded)
    × ((conn_loop env (pos 0) (reads_of large_wire) (start env.now [])).1.wire.sent ≡ [])
frame_above_quota_example =
    frame_above_quota env (pos 0) (reads_of large_wire) (start env.now []) large_frame large_wire []
      (start-IsAccounted env.now []) (reads_of-IsQuiet large_wire) (inr refl) encode-large
      (omega (arith, length-zeros 300000))
      (received-reads_of large_wire ∙ sym (append-nil large_wire))

-- A one-way request and the first byte of the next.
frames-one_way : (s : Wire) × (frames env (request_wire 4 ++ (0xCA ∷ [])) 0 wire ≡ (ok 18, s))
unfolding frames_loop decode slice handle_frame answer request_of decode_frame_body decode_message
    has_flag dispatch get allow_now allow refill spend wrap64 quot_ℤ ◌+ℤ◌ ◌-ℤ◌ ◌*ℤ◌
frames-one_way = ((frames env (request_wire 4 ++ (0xCA ∷ [])) 0 wire).1, refl)

frames-chunks_example :
    frames env ((request_wire 4 ++ (0xCA ∷ [])) ++ (0xFE ∷ [])) 0 wire
    ≡ shift 18 (frames env (0xCA ∷ 0xFE ∷ []) 0 frames-one_way.0)
frames-chunks_example =
    frames-chunks env (request_wire 4 ++ (0xCA ∷ [])) (0xFE ∷ []) 18 wire frames-one_way.0
      frames-one_way.1

encode-request : encode (request_frame 0) ≡ some (request_wire 0)
unfolding encode
encode-request = refl

request_answered_example :
    ((process_buffered_frames env (record { wire = wire; buf = request_wire 0 ++ (0xCA ∷ []) })).0
      ≡ ok tt)
    × ((process_buffered_frames env
          (record { wire = wire; buf = request_wire 0 ++ (0xCA ∷ []) })).1.buf
        ≡ 0xCA ∷ [])
    × ((process_buffered_frames env
          (record { wire = wire; buf = request_wire 0 ++ (0xCA ∷ []) })).1.wire.sent
        ≡ response_wire)
request_answered_example =
    request_answered env wire (request_frame 0) (inr refl) encode-request (unfold decode in refl)
      allowed request_of-request (unfold has_flag in refl) dispatch-request response_bytes-request
      (writes-progress 19) (omega (arith, length-writes_of 19))
