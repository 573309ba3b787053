-- ===== src/Server/Conn.antt =====
-- conn_handler.go: reading into the buffer, handling the whole frames in it, and the loop of a
-- connection. SetReadDeadline shows only in what conn.Read answers.
pub mod Loop
pub mod Chunks
pub mod Quota
pub mod Large
pub mod Total
pub mod Answer
use novagate.Base.{
  ℕ, zero, suc, ◌+◌, ◌*◌, String, Bool, true, false, not, ◌&&◌, Option, none, some, List, [], ◌∷◌,
  ◌++◌, Result, ok, err, ltb, length, drop, if◌then◌else◌,
}
use novagate.Base.Int.{ℤ, pos, ltb_ℤ}
use novagate.Protocol.Bytes.{Bytes}
use novagate.Protocol.Frame.{decode}
use novagate.Protocol.Compress.{Gzip}
use novagate.Server.Context.{new_conn_context, reserve, release}
use novagate.Server.Router.{Router}
use novagate.Server.Wire.{
  Wire, WriteResult, Exec, Env, ConnError, quota_exceeded, idle_timeout, eof, out_of_fuel,
  nil_router, frame_failed, read_failed, pure, raise, lift, continue, ◌>>=◌, ◌>>◌,
}
use novagate.Server.Handle.{handle_frame}

pub record ConnState : Type 0 where
  pub wire : Wire
  pub buf : Bytes

-- What one conn.Read answers: the bytes that it put into the 4 KiB temporary, and its error.
pub data ReadFailure : Type 0 where
  end_of_file : ReadFailure
  timed_out other : String → ReadFailure

pub record ReadResult : Type 0 where
  pub chunk : Bytes
  pub failure : Option ReadFailure

-- The loop of processBufferedFrames, from `consumed` on. A frame takes eight bytes at least, so more
-- rounds than bytes are enough fuel.
unfoldable pub frames_loop : Env → ℕ → Bytes → ℕ → Exec ℕ
frames_loop v zero buf consumed = raise out_of_fuel
frames_loop v (suc fuel) buf consumed = elim (decode (drop consumed buf)) [
  | err e ↦ raise (frame_failed e)
  | ok none ↦ pure consumed
  | ok (some (frame, frame_len)) ↦
      handle_frame v frame >> frames_loop v fuel buf (consumed + frame_len)
]

-- On an error the buffer and the quota stay; else the consumed bytes leave both.
unfoldable pub finish : Bytes → Result ConnError ℕ × Wire → Result ConnError (Unit {0}) × ConnState
finish buf (err e, w) = (err e, record { wire = w; buf = buf })
finish buf (ok consumed, w) =
    if ltb 0 consumed
    then (ok tt, record { wire = record w { cc = release w.cc consumed }; buf = drop consumed buf })
    else (ok tt, record { wire = w; buf = buf })

unfoldable pub process_buffered_frames : Env → ConnState → Result ConnError (Unit {0}) × ConnState
unfolding finish
process_buffered_frames v s = finish s.buf (frames_loop v (suc (length s.buf)) s.buf 0 s.wire)

-- The error of conn.Read as readIntoBuffer returns it.
read_error : ℤ → Option ReadFailure → Result ConnError (Unit {0})
read_error idle none = ok tt
read_error idle (some end_of_file) = err eof
read_error idle (some (timed_out e)) =
    if ltb_ℤ (pos 0) idle then err idle_timeout else err (read_failed e)
read_error idle (some (other e)) = err (read_failed e)

-- The bytes are reserved before they are appended; a read above the quota appends nothing.
unfoldable pub read_into_buffer :
    ℤ → ReadResult → ConnState → Result ConnError (Unit {0}) × ConnState
unfolding read_error
read_into_buffer idle r s =
    if ltb 0 (length r.chunk)
    then (let (cc, within) = reserve s.wire.cc (length r.chunk) in
        let w = record s.wire { cc = cc } in
        if not within
        then (err quota_exceeded, record s { wire = w })
        else (read_error idle r.failure, record { wire = w; buf = s.buf ++ r.chunk }))
    else (read_error idle r.failure, s)

-- `waiting`: the connection is open and the peer has sent nothing more.
pub data ConnEnd : Type 0 where
  closed waiting : ConnEnd
  failed : ConnError → ConnEnd

-- handleConn returns nil at the end of the input and on an idle timeout.
abbrev pub conn_end : ConnError → ConnEnd
conn_end eof = closed
conn_end idle_timeout = closed
conn_end e = failed e

abbrev pub and_then {ℓ} :
    {A : Type ℓ}
    → Result ConnError (Unit {0}) × ConnState
    → (ConnState → A)
    → (ConnError → ConnState → A)
    → A
and_then (ok _, s) next stop = next s
and_then (err e, s) next stop = stop e s

-- One round of handleConn's loop.
unfoldable pub conn_round :
    Env → ℤ → ReadResult → ConnState → Result ConnError (Unit {0}) × ConnState
conn_round v idle r s =
    and_then (read_into_buffer idle r s) (process_buffered_frames v) (λ e s'. (err e, s'))

unfoldable pub conn_loop : Env → ℤ → List ReadResult → ConnState → ConnEnd × ConnState
conn_loop v idle [] s = (waiting, s)
conn_loop v idle (r ∷ reads) s =
    and_then (conn_round v idle r s) (conn_loop v idle reads) (λ e s'. (conn_end e, s'))

-- The deferred Release has its argument computed at the start, where the buffer is empty.
release_deferred : ℕ → ConnEnd × ConnState → ConnEnd × ConnState
release_deferred n (end, s) = (end, record s { wire = record s.wire { cc = release s.wire.cc n } })

abbrev pub start : (ℕ → ℤ) → List WriteResult → ConnState
start now writes = record {
  wire = record { cc = new_conn_context (now 0); ticks = 1; writes = writes; sent = [] };
  buf = [];
}

-- handleConn, with the answers of the network to its reads and its writes.
unfoldable pub handle_conn :
    Gzip → (ℕ → ℤ) → Option Router → ℤ → List WriteResult → List ReadResult → ConnEnd × ConnState
unfolding release_deferred
handle_conn g now none idle writes reads = (failed nil_router, start now writes)
handle_conn g now (some router) idle writes reads =
    release_deferred (length (start now writes).buf)
      (conn_loop (record { gzip = g; router = router; now = now }) idle reads (start now writes))
