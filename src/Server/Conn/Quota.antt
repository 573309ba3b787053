-- ===== src/Server/Conn/Quota.antt =====
-- conn_handler.go and the quota of conn_ctx.go: what is counted is what is buffered, round after round.
use novagate.Base.{
  List, ℕ, zero, suc, ◌+◌, ◌-◌, ◌*◌, ◌^◌, ◌≤◌, ◌<◌, ◌≡◌, refl, sym, ap, ◌∙◌, inl, inr, true, false,
  none, Result, ok, err, length, drop, arith, leb, ltb, length-drop, length-append, Bool-cases,
}
use novagate.Base.Int.{ℤ, pos, wrap64-pos, pos-+ℤ, pos--ℤ}
use novagate.Protocol.Bytes.{Bytes}
use novagate.Protocol.Frame.{decode}
use novagate.Protocol.Frame.RoundTrip.{decode-cases}
use novagate.Server.Context.{ConnContext, reserve, release, new_conn_context}
use novagate.Server.Wire.{Wire, WriteResult, quota_exceeded, Env, ConnError}
use novagate.Server.Wire.Keeps.{HasQuota, Keeps, bind-Keeps}
use novagate.Server.Handle.{handle_frame}
use novagate.Server.Handle.Shape.{handle_frame-HasQuota}
use novagate.Server.Conn.{
  ConnState, ReadResult, frames_loop, finish, process_buffered_frames, read_into_buffer, conn_round,
  start, and_then,
}
use novagate.Server.Conn.Loop.{frame_inside, frames}
use novagate.Server.Conn.Chunks.{continue-inv, pure-inv}

abbrev pub quota : ℕ
quota = 256 * 1024

-- The context counts the buffered bytes, and they are within the quota.
pub record IsAccounted (s : ConnState) : Type 0 where
  pub used : s.wire.cc.buffer_used ≡ pos (length s.buf)
  pub limit : s.wire.cc.max_buffer ≡ pos quota
  pub within : length s.buf ≤ quota

frames_loop-HasQuota :
    (v : Env) (used limit : ℤ) (fuel : ℕ) (buf : Bytes) (consumed : ℕ)
    → Keeps (HasQuota used limit) (frames_loop v fuel buf consumed)
unfolding frames_loop
frames_loop-HasQuota v used limit zero buf consumed s h = h
frames_loop-HasQuota v used limit (suc fuel) buf consumed s h =
    elim (decode-cases (decode (drop consumed buf))) [
      | inl waits ↦ rw (waits, frames_loop) h
      | inr (inl (f, n, e)) ↦
          rw (e, frames_loop)
            (bind-Keeps (HasQuota used limit) (handle_frame v f)
              (λ _. frames_loop v fuel buf (consumed + n)) (handle_frame-HasQuota v f used limit)
              (λ _. frames_loop-HasQuota v used limit fuel buf (consumed + n)) s h)
      | inr (inr (x, e)) ↦ rw (e, frames_loop) h
    ]

-- Where the loop stops without an error no whole frame is left.
pub frames_loop-stops :
    (v : Env) (fuel : ℕ) (buf : Bytes) (consumed c : ℕ) (s s' : Wire)
    → consumed ≤ length buf
    → frames_loop v fuel buf consumed s ≡ (ok c, s')
    → (c ≤ length buf) × (decode (drop c buf) ≡ ok none)
unfolding frames_loop
frames_loop-stops v zero buf consumed c s s' h e = ground arith
frames_loop-stops v (suc fuel) buf consumed c s s' h e =
    elim (decode-cases (decode (drop consumed buf))) [
      | inl waits ↦
          let (pc, _) = pure-inv consumed c s s' (rw (waits, frames_loop) at e) in
          (rw (← pc) h, rw (← pc) waits)
      | inr (inl (f, n, d)) ↦
          let (some_bytes, inside) = frame_inside buf consumed h d in
          let (t, handled, rest) =
            continue-inv (handle_frame v f s) (frames_loop v fuel buf (consumed + n))
              (rw (d, frames_loop) at e) in
          frames_loop-stops v fuel buf (consumed + n) c t s' inside rest
      | inr (inr (x, d)) ↦ ground arith
    ]

release_used :
    (c : ConnContext) (used n : ℕ)
    → c.buffer_used ≡ pos used
    → n ≤ used
    → used < 2 ^ 63
    → (release c n).buffer_used ≡ pos (used - n)
unfolding release
release_used c used n e h k = rw (e, pos--ℤ used n h) (wrap64-pos (used - n) (omega arith))

max_buffer-release : (c : ConnContext) (n : ℕ) → (release c n).max_buffer ≡ c.max_buffer
unfolding release
max_buffer-release c n = refl

finish-IsAccounted :
    (buf : Bytes) (r : Result ConnError ℕ) (w : Wire)
    → HasQuota (pos (length buf)) (pos quota) w
    → length buf ≤ quota
    → ((c : ℕ) → r ≡ ok c → (c ≤ length buf) × (decode (drop c buf) ≡ ok none))
    → (finish buf (r, w)).0 ≡ ok tt
    → IsAccounted (finish buf (r, w)).1 × (decode (finish buf (r, w)).1.buf ≡ ok none)
unfolding finish
finish-IsAccounted buf (err e) w h k stops p = cc
finish-IsAccounted buf (ok c) w h k stops p =
    let (bound, waits) = stops c refl in
    elim (Bool-cases (ltb 0 c)) [
      | inl some_bytes ↦ rw some_bytes (
        record {
          used =
              release_used w.cc (length buf) c h.0 bound (omega arith)
              ∙ ap pos (sym (length-drop c buf));
          limit = max_buffer-release w.cc c ∙ h.1;
          within = omega (arith, length-drop c buf);
        },
        waits,
      )
      | inr nothing ↦
          let e : c ≡ 0 = ground arith in
          rw nothing (record { used = h.0; limit = h.1; within = k }, rw e at waits)
    ]

process-IsAccounted :
    (v : Env) (s : ConnState)
    → IsAccounted s
    → (process_buffered_frames v s).0 ≡ ok tt
    → IsAccounted (process_buffered_frames v s).1
      × (decode (process_buffered_frames v s).1.buf ≡ ok none)
unfolding process_buffered_frames
process-IsAccounted v s h =
    let r = frames v s.buf 0 s.wire in
    finish-IsAccounted s.buf r.0 r.1
      (frames_loop-HasQuota v (pos (length s.buf)) (pos quota) (suc (length s.buf)) s.buf 0 s.wire
        (h.used, h.limit))
      h.within
      (λ c e.
        frames_loop-stops v (suc (length s.buf)) s.buf 0 c s.wire r.1 (omega arith) (ground arith))

pub reserve_used :
    (c : ConnContext) (used n : ℕ)
    → c.buffer_used ≡ pos used
    → c.max_buffer ≡ pos quota
    → used + n < 2 ^ 63
    → ((reserve c n).0.buffer_used ≡ pos (used + n))
      × ((reserve c n).0.max_buffer ≡ pos quota)
      × ((reserve c n).1 ≡ leb (used + n) quota)
unfolding reserve
reserve_used c used n e m h =
    rw (e, m, pos-+ℤ used n, wrap64-pos (used + n) h) (refl, refl, ground arith)

pub read-IsAccounted :
    (idle : ℤ) (r : ReadResult) (s : ConnState)
    → length r.chunk ≤ 4096
    → IsAccounted s
    → (read_into_buffer idle r s).0 ≡ ok tt
    → IsAccounted (read_into_buffer idle r s).1
unfolding read_into_buffer
read-IsAccounted idle r s small h p =
    let (used, limit, answer) =
      reserve_used s.wire.cc (length s.buf) (length r.chunk) h.used h.limit
        (omega (arith, h.within)) in
    elim (Bool-cases (ltb 0 (length r.chunk))) [
      | inr nothing ↦ rw nothing h
      | inl some_bytes ↦ elim (Bool-cases (reserve s.wire.cc (length r.chunk)).1) [
        | inr refused ↦ ground arith
        | inl taken ↦
            let fits : length s.buf + length r.chunk ≤ quota = ground arith in
            rw (some_bytes, taken)
              (record {
                used = used ∙ ap pos (sym (length-append s.buf r.chunk));
                limit = limit;
                within = omega (arith, length-append s.buf r.chunk);
              })
      ]
    ]

-- A read that would bring the buffer above the quota is refused, and ends the connection.
pub read_refused :
    (idle : ℤ) (r : ReadResult) (s : ConnState)
    → length r.chunk ≤ 4096
    → IsAccounted s
    → quota < length s.buf + length r.chunk
    → (read_into_buffer idle r s).0 ≡ err quota_exceeded
unfolding read_into_buffer
read_refused idle r s small h big =
    let (_, _, answer) =
      reserve_used s.wire.cc (length s.buf) (length r.chunk) h.used h.limit
        (omega (arith, h.within)) in
    let refused : (reserve s.wire.cc (length r.chunk)).1 ≡ false = ground arith in
    let some_bytes : ltb 0 (length r.chunk) ≡ true = ground (arith, h.within) in
    rw (some_bytes, refused)

-- From a connection whose quota counts exactly its buffered bytes, a round that reads at most 4 KiB
-- and does not end the connection leaves one: the count is exact, at most 256 KiB are buffered, and
-- no whole frame is left among them.
pub conn_round-IsAccounted :
    (v : Env) (idle : ℤ) (r : ReadResult) (s : ConnState)
    → length r.chunk ≤ 4096
    → IsAccounted s
    → (conn_round v idle r s).0 ≡ ok tt
    → IsAccounted (conn_round v idle r s).1 × (decode (conn_round v idle r s).1.buf ≡ ok none)
unfolding conn_round
conn_round-IsAccounted v idle r s small h p =
    process_after (read_into_buffer idle r s) (read-IsAccounted idle r s small h) p
  where
    process_after :
        (t : Result ConnError (Unit {0}) × ConnState)
        → (t.0 ≡ ok tt → IsAccounted t.1)
        → (and_then t (process_buffered_frames v) (λ e s'. (err e, s'))).0 ≡ ok tt
        → IsAccounted (and_then t (process_buffered_frames v) (λ e s'. (err e, s'))).1
          × (decode (and_then t (process_buffered_frames v) (λ e s'. (err e, s'))).1.buf ≡ ok none)
    process_after (ok _, t) k q = process-IsAccounted v t (k refl) q
    process_after (err e, t) k q = cc

pub start-IsAccounted : (now : ℕ → ℤ) (writes : List WriteResult) → IsAccounted (start now writes)
unfolding new_conn_context
start-IsAccounted now writes = record { used = refl; limit = refl; within = omega arith }
