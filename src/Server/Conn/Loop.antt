-- ===== src/Server/Conn/Loop.antt =====
-- conn_handler.go, processBufferedFrames: the loop ends, whatever the buffer holds.
use novagate.Base.{
  ℕ, zero, suc, ◌+◌, ◌≤◌, ◌<◌, ◌≡◌, ◌≢◌, refl, inl, inr, some, Result, ok, err, length, drop, arith,
  length-drop,
}
use novagate.Protocol.Bytes.{Bytes}
use novagate.Protocol.Frame.{Frame, decode}
use novagate.Protocol.Frame.Stream.{decode_bounds}
use novagate.Protocol.Frame.RoundTrip.{decode-cases}
use novagate.Server.Wire.{Wire, Env, ConnError, Exec, out_of_fuel, continue, ◌>>◌}
use novagate.Server.Handle.{handle_frame}
use novagate.Server.Handle.Shape.{handle_frame-fueled}
use novagate.Server.Conn.{frames_loop}

-- A decoded frame behind `consumed` ends inside the buffer.
pub frame_inside :
    (buf : Bytes) (consumed : ℕ) {f : Frame} {n : ℕ}
    → consumed ≤ length buf
    → decode (drop consumed buf) ≡ ok (some (f, n))
    → (8 ≤ n) × (consumed + n ≤ length buf)
frame_inside buf consumed h e =
    omega (arith, decode_bounds (drop consumed buf) e, length-drop consumed buf)

continue-fueled :
    (r : Result ConnError (Unit {0}) × Wire) (next : Exec ℕ)
    → r.0 ≢ err out_of_fuel
    → ((s : Wire) → (next s).0 ≢ err out_of_fuel)
    → (continue r (λ _. next)).0 ≢ err out_of_fuel
continue-fueled (ok _, s) next h k = k s
continue-fueled (err e, s) next h k = λ p. h (ground arith)

-- The loop never runs out of fuel: each frame takes a byte at least.
pub frames_loop-fueled :
    (v : Env) (fuel : ℕ) (buf : Bytes) (consumed : ℕ) (s : Wire)
    → consumed ≤ length buf
    → length buf < consumed + fuel
    → (frames_loop v fuel buf consumed s).0 ≢ err out_of_fuel
unfolding frames_loop
frames_loop-fueled v zero buf consumed s h k = absurd (omega arith)
frames_loop-fueled v (suc fuel) buf consumed s h k =
    elim (decode-cases (decode (drop consumed buf))) [
      | inl waits ↦ rw (waits, frames_loop) (λ p. cc)
      | inr (inl (f, n, e)) ↦
          let (some_bytes, inside) = frame_inside buf consumed h e in
          rw (e, frames_loop)
            (continue-fueled (handle_frame v f s) (frames_loop v fuel buf (consumed + n))
              (handle_frame-fueled v f s)
              (λ t. frames_loop-fueled v fuel buf (consumed + n) t inside (omega arith)))
      | inr (inr (x, e)) ↦ rw (e, frames_loop) (λ p. cc)
    ]

continue-cong :
    (r : Result ConnError (Unit {0}) × Wire) (m n : Exec ℕ)
    → ((s : Wire) → m s ≡ n s)
    → continue r (λ _. m) ≡ continue r (λ _. n)
continue-cong (ok _, s) m n h = h s
continue-cong (err e, s) m n h = refl

-- With enough fuel the loop does not depend on it.
pub frames_loop-fuel :
    (v : Env) (fuel fuel' : ℕ) (buf : Bytes) (consumed : ℕ) (s : Wire)
    → consumed ≤ length buf
    → length buf < consumed + fuel
    → length buf < consumed + fuel'
    → frames_loop v fuel buf consumed s ≡ frames_loop v fuel' buf consumed s
unfolding frames_loop
frames_loop-fuel v zero fuel' buf consumed s h k k' = absurd (omega arith)
frames_loop-fuel v (suc fuel) zero buf consumed s h k k' = absurd (omega arith)
frames_loop-fuel v (suc fuel) (suc fuel') buf consumed s h k k' =
    elim (decode-cases (decode (drop consumed buf))) [
      | inl waits ↦ rw (waits, frames_loop)
      | inr (inl (f, n, e)) ↦
          let (some_bytes, inside) = frame_inside buf consumed h e in
          rw (e, frames_loop)
            (continue-cong (handle_frame v f s) (frames_loop v fuel buf (consumed + n))
              (frames_loop v fuel' buf (consumed + n))
              (λ t.
                frames_loop-fuel v fuel fuel' buf (consumed + n) t inside (omega arith)
                  (omega arith)))
      | inr (inr (x, e)) ↦ rw (e, frames_loop)
    ]

-- The loop as processBufferedFrames runs it.
abbrev pub frames : Env → Bytes → ℕ → Exec ℕ
frames v buf consumed = frames_loop v (suc (length buf)) buf consumed

pub frames-step :
    (v : Env) (buf : Bytes) (consumed : ℕ) (s : Wire) {f : Frame} {n : ℕ}
    → consumed ≤ length buf
    → decode (drop consumed buf) ≡ ok (some (f, n))
    → frames v buf consumed s ≡ (handle_frame v f >> frames v buf (consumed + n)) s
unfolding frames_loop
frames-step v buf consumed s {f} {n} h e =
    let (some_bytes, inside) = frame_inside buf consumed h e in
    rw (e, frames_loop)
      (continue-cong (handle_frame v f s) (frames_loop v (length buf) buf (consumed + n))
        (frames_loop v (suc (length buf)) buf (consumed + n))
        (λ t.
          frames_loop-fuel v (length buf) (suc (length buf)) buf (consumed + n) t inside
            (omega arith) (omega arith)))
