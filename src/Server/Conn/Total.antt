-- ===== src/Server/Conn/Total.antt =====
-- conn_handler.go: handleConn reaches an end on every input, by the fuel that the model gives it.
use novagate.Base.{ℕ, suc, ◌≢◌, none, some, Option, List, [], ◌∷◌, Result, ok, err, length, arith}
use novagate.Base.Int.{ℤ}
use novagate.Protocol.Bytes.{Bytes}
use novagate.Protocol.Compress.{Gzip}
use novagate.Server.Router.{Router}
use novagate.Server.Wire.{Wire, WriteResult, Env, ConnError, out_of_fuel}
use novagate.Server.Conn.{
  ConnState, ReadResult, ReadFailure, ConnEnd, failed, conn_end, frames_loop, finish,
  process_buffered_frames, read_error, read_into_buffer, conn_round, conn_loop, and_then, start,
  handle_conn,
}
use novagate.Server.Conn.Loop.{frames_loop-fueled}

finish-fueled :
    (buf : Bytes) (r : Result ConnError ℕ × Wire)
    → r.0 ≢ err out_of_fuel
    → (finish buf r).0 ≢ err out_of_fuel
unfolding finish
finish-fueled buf (ok c, w) h p = ground arith
finish-fueled buf (err e, w) h p = h (ground arith)

process-fueled : (v : Env) (s : ConnState) → (process_buffered_frames v s).0 ≢ err out_of_fuel
unfolding process_buffered_frames
process-fueled v s =
    finish-fueled s.buf (frames_loop v (suc (length s.buf)) s.buf 0 s.wire)
      (frames_loop-fueled v (suc (length s.buf)) s.buf 0 s.wire (omega arith) (omega arith))

read_error-fueled : (idle : ℤ) (f : Option ReadFailure) → read_error idle f ≢ err out_of_fuel
unfolding read_error
read_error-fueled idle f p = ground arith

read-fueled :
    (idle : ℤ) (r : ReadResult) (s : ConnState) → (read_into_buffer idle r s).0 ≢ err out_of_fuel
unfolding read_into_buffer
read-fueled idle r s p = ground (arith, read_error-fueled idle r.failure)

and_then-fueled :
    (v : Env) (t : Result ConnError (Unit {0}) × ConnState)
    → t.0 ≢ err out_of_fuel
    → (and_then t (process_buffered_frames v) (λ e s'. (err e, s'))).0 ≢ err out_of_fuel
and_then-fueled v (ok _, s) h = process-fueled v s
and_then-fueled v (err e, s) h = h

conn_end-fueled : (e : ConnError) → e ≢ out_of_fuel → conn_end e ≢ failed out_of_fuel
conn_end-fueled e h p = ground arith

next-fueled :
    (t : Result ConnError (Unit {0}) × ConnState) (next : ConnState → ConnEnd × ConnState)
    → t.0 ≢ err out_of_fuel
    → ((s : ConnState) → (next s).0 ≢ failed out_of_fuel)
    → (and_then t next (λ e s'. (conn_end e, s'))).0 ≢ failed out_of_fuel
next-fueled (ok _, s) next h k = k s
next-fueled (err e, s) next h k = conn_end-fueled e (λ p. h (ground arith))

conn_loop-fueled :
    (v : Env) (idle : ℤ) (reads : List ReadResult) (s : ConnState)
    → (conn_loop v idle reads s).0 ≢ failed out_of_fuel
unfolding conn_loop conn_round
conn_loop-fueled v idle [] s = λ p. cc
conn_loop-fueled v idle (r ∷ reads) s =
    next-fueled (conn_round v idle r s) (conn_loop v idle reads)
      (and_then-fueled v (read_into_buffer idle r s) (read-fueled idle r s))
      (λ t. conn_loop-fueled v idle reads t)

-- Whatever the peer sends and however the network answers, handleConn never runs out of the fuel that
-- the model gives its loop over the buffered frames.
pub handle_conn-fueled :
    (g : Gzip) (now : ℕ → ℤ) (router : Option Router) (idle : ℤ) (writes : List WriteResult)
    (reads : List ReadResult)
    → (handle_conn g now router idle writes reads).0 ≢ failed out_of_fuel
unfolding handle_conn
handle_conn-fueled g now none idle writes reads = λ p. cc
handle_conn-fueled g now (some router) idle writes reads =
    conn_loop-fueled (record { gzip = g; router = router; now = now }) idle reads (start now writes)
