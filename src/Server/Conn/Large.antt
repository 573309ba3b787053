-- ===== src/Server/Conn/Large.antt =====
-- conn_handler.go against protocol/frame.go: a frame that the protocol allows and the quota does not.
use mathlib.Core.List.{append-nil, append_assoc}
use novagate.Base.{
  ℕ, suc, ◌+◌, ◌≤◌, ◌<◌, ◌≡◌, refl, ap, ◌∙◌, inl, inr, true, none, some, List, [], ◌∷◌, ◌++◌,
  Result, ok, err, length, arith, ltb, length-append, Bool-cases, All,
}
use novagate.Base.Int.{ℤ}
use novagate.Protocol.Bytes.{Bytes}
use novagate.Protocol.Frame.{Frame, decode, encode}
use novagate.Protocol.Frame.RoundTrip.{IsCurrent, decode_waits}
use novagate.Server.Context.{reserve}
use novagate.Server.Wire.{Wire, Env, ConnError, quota_exceeded}
use novagate.Server.Conn.{
  ConnState, ReadResult, failed, frames_loop, finish, process_buffered_frames, read_into_buffer,
  conn_round, conn_loop, and_then,
}
use novagate.Server.Conn.Quota.{quota, IsAccounted, reserve_used, read-IsAccounted, read_refused}

-- A read of at most the temporary's 4 KiB that does not fail.
abbrev pub IsQuiet : ReadResult → Type 0
IsQuiet r = (length r.chunk ≤ 4096) × (r.failure ≡ none)

abbrev pub received : List ReadResult → Bytes
received [] = []
received (r ∷ reads) = r.chunk ++ received reads

-- Of two ways to cut a list, the shorter front is a proper prefix of the longer.
proper_prefix :
    (xs ys zs ws : Bytes)
    → xs ++ ys ≡ zs ++ ws
    → length xs < length zs
    → (x : ℕ) × (back : Bytes) × (zs ≡ xs ++ (x ∷ back))
proper_prefix [] ys [] ws e h = elim h [ ]
proper_prefix [] ys (z ∷ zs) ws e h = (z, zs, refl)
proper_prefix (x ∷ xs) ys [] ws e h = elim h [ ]
proper_prefix (x ∷ xs) ys (z ∷ zs) ws e h =
    let tails : xs ++ ys ≡ zs ++ ws = ground arith in
    let (y, back, p) = proper_prefix xs ys zs ws tails (omega arith) in (y, back, ground arith)

module _ (idle : ℤ) (r : ReadResult) (s : ConnState) where
  read_taken :
      IsQuiet r
      → IsAccounted s
      → length s.buf + length r.chunk ≤ quota
      → ((read_into_buffer idle r s).0 ≡ ok tt)
        × ((read_into_buffer idle r s).1.buf ≡ s.buf ++ r.chunk)
        × ((read_into_buffer idle r s).1.wire.sent ≡ s.wire.sent)
  unfolding read_into_buffer
  read_taken quiet h fits =
      let (_, _, answer) =
        reserve_used s.wire.cc (length s.buf) (length r.chunk) h.used h.limit (omega arith) in
      let taken : (reserve s.wire.cc (length r.chunk)).1 ≡ true = ground arith in
      elim (Bool-cases (ltb 0 (length r.chunk))) [
        | inl some_bytes ↦ rw (some_bytes, taken) (ground arith, refl, refl)
        | inr nothing ↦
            let e : r.chunk ≡ [] = ground arith in
            rw nothing (ground arith, rw (e, append-nil), refl)
      ]

loop_waits :
    (v : Env) (fuel : ℕ) (buf : Bytes) (w : Wire)
    → decode buf ≡ ok none
    → frames_loop v (suc fuel) buf 0 w ≡ (ok 0, w)
unfolding frames_loop
loop_waits v fuel buf w h = rw (h, frames_loop)

process_waits :
    (v : Env) (s : ConnState) → decode s.buf ≡ ok none → process_buffered_frames v s ≡ (ok tt, s)
unfolding process_buffered_frames
process_waits v s h = ap (finish s.buf) (loop_waits v (length s.buf) s.buf s.wire h)

sent-read :
    (idle : ℤ) (r : ReadResult) (s : ConnState)
    → (read_into_buffer idle r s).1.wire.sent ≡ s.wire.sent
unfolding read_into_buffer
sent-read idle r s = ground arith

module _ {ℓ} {A : Type ℓ} (t : Result ConnError (Unit {0}) × ConnState) (next : ConnState → A)
    (stop : ConnError → ConnState → A) where
  and_then_ok : t.0 ≡ ok tt → and_then t next stop ≡ next t.1
  and_then_ok h = go t h
    where
      go :
          (u : Result ConnError (Unit {0}) × ConnState)
          → u.0 ≡ ok tt
          → and_then u next stop ≡ next u.1
      go (ok _, u) p = refl
      go (err e, u) p = cc

  and_then_err : (e : ConnError) → t.0 ≡ err e → and_then t next stop ≡ stop e t.1
  and_then_err e h = go t h
    where
      go :
          (u : Result ConnError (Unit {0}) × ConnState)
          → u.0 ≡ err e
          → and_then u next stop ≡ stop e u.1
      go (ok _, u) p = cc
      go (err x, u) p = ground arith

-- One round of a peer that has not sent a whole frame yet.
round_waits :
    (v : Env) (idle : ℤ) (r : ReadResult) (s : ConnState)
    → (read_into_buffer idle r s).0 ≡ ok tt
    → decode (read_into_buffer idle r s).1.buf ≡ ok none
    → conn_round v idle r s ≡ (ok tt, (read_into_buffer idle r s).1)
unfolding conn_round
round_waits v idle r s took waits =
    and_then_ok (read_into_buffer idle r s) (process_buffered_frames v) (λ e s'. (err e, s')) took
    ∙ process_waits v (read_into_buffer idle r s).1 waits

round_refused :
    (v : Env) (idle : ℤ) (r : ReadResult) (s : ConnState)
    → (read_into_buffer idle r s).0 ≡ err quota_exceeded
    → conn_round v idle r s ≡ (err quota_exceeded, (read_into_buffer idle r s).1)
unfolding conn_round
round_refused v idle r s refused =
    and_then_err (read_into_buffer idle r s) (process_buffered_frames v) (λ e s'. (err e, s'))
      quota_exceeded refused

-- A peer that sends a frame of more than 256 KiB, in reads of up to 4 KiB that do not fail, never gets it
-- handled: the connection ends with the quota's error and nothing is sent, though the protocol
-- allows bodies up to 1 MiB.
pub frame_above_quota :
    (v : Env) (idle : ℤ) (reads : List ReadResult) (s : ConnState) (f : Frame) (bytes rest : Bytes)
    → IsAccounted s
    → All IsQuiet reads
    → IsCurrent f.version
    → encode f ≡ some bytes
    → quota < length bytes
    → s.buf ++ received reads ≡ bytes ++ rest
    → ((conn_loop v idle reads s).0 ≡ failed quota_exceeded)
      × ((conn_loop v idle reads s).1.wire.sent ≡ s.wire.sent)
unfolding conn_loop
frame_above_quota v idle [] s f bytes rest h quiet cur e big all = absurd (
    omega
      (arith, h.within, ap {B = ℕ} length all, length-append s.buf [], length-append bytes rest))
frame_above_quota v idle (r ∷ reads) s f bytes rest h quiet cur e big all =
    elim (Bool-cases (ltb quota (length s.buf + length r.chunk))) [
      | inl above ↦
          let refused = read_refused idle r s quiet.0.0 h (ground arith) in
          rw (round_refused v idle r s refused) (refl, sent-read idle r s)
      | inr below ↦
          let fits : length s.buf + length r.chunk ≤ quota = ground arith in
          let s' = (read_into_buffer idle r s).1 in
          let (took, grown, same) = read_taken idle r s quiet.0 h fits in
          let all' : s'.buf ++ received reads ≡ bytes ++ rest =
            rw grown (append_assoc s.buf r.chunk (received reads) ∙ all) in
          let (x, back, cut) =
            proper_prefix s'.buf (received reads) bytes rest all'
              (rw grown (omega (arith, length-append s.buf r.chunk))) in
          let waits = decode_waits f bytes s'.buf back x cur e cut in
          let (end, sent) =
            frame_above_quota v idle reads s' f bytes rest
              (read-IsAccounted idle r s quiet.0.0 h took) quiet.1 cur e big all' in
          rw (round_waits v idle r s took waits) (end, sent ∙ same)
    ]
