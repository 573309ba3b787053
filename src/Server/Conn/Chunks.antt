-- ===== src/Server/Conn/Chunks.antt =====
-- conn_handler.go, processBufferedFrames: it does not matter how the input was cut into reads.
use native.Mathlib.Nat.{add_assoc, add-zero}
use novagate.Base.{
  Option, ℕ, zero, suc, ◌+◌, ◌≤◌, ◌≡◌, refl, sym, ap, ◌∙◌, inl, inr, some, ◌++◌, Result, ok, err,
  length, drop, arith, length-drop, length-append, drop-drop, drop-append,
}
use novagate.Protocol.Bytes.{Bytes}
use novagate.Protocol.Frame.{Frame, FrameError, decode}
use novagate.Protocol.Frame.Stream.{decode-append}
use novagate.Protocol.Frame.RoundTrip.{decode-cases}
use novagate.Server.Wire.{Wire, Env, ConnError, Exec, continue}
use novagate.Server.Handle.{handle_frame}
use novagate.Server.Conn.{frames_loop}
use novagate.Server.Conn.Loop.{frame_inside, frames_loop-fuel, frames, frames-step}

pub continue-inv :
    (r : Result ConnError (Unit {0}) × Wire) (next : Exec ℕ) {c : ℕ} {s : Wire}
    → continue r (λ _. next) ≡ (ok c, s)
    → (t : Wire) × (r ≡ (ok tt, t)) × (next t ≡ (ok c, s))
continue-inv (ok _, t) next e = (t, refl, e)
continue-inv (err x, t) next e = ground arith

pub continue-ok :
    (r : Result ConnError (Unit {0}) × Wire) (next : Exec ℕ) {t : Wire}
    → r ≡ (ok tt, t)
    → continue r (λ _. next) ≡ next t
continue-ok r next e = rw e

pub pure-inv :
    (c d : ℕ) (s t : Wire)
    → ◌≡◌ {A = Result ConnError ℕ × Wire} (ok c, s) (ok d, t)
    → (c ≡ d) × (s ≡ t)
pure-inv c d s t e = (ground arith, ap (λ r. r.1) e)

frames-cong :
    (v : Env) (buf : Bytes) (c d : ℕ) (s t : Wire)
    → c ≡ d
    → s ≡ t
    → frames v buf c s ≡ frames v buf d t
frames-cong v buf c d s t p q = cc

-- What is decoded behind `consumed` is decoded there in a longer buffer too.
decode-later :
    (a b : Bytes) (consumed : ℕ) {f : Frame} {n : ℕ}
    → consumed ≤ length a
    → decode (drop consumed a) ≡ ok (some (f, n))
    → decode (drop consumed (a ++ b)) ≡ ok (some (f, n))
decode-later a b consumed h e =
    rw (drop-append consumed a b h) (decode-append (drop consumed a) b (λ p. ground arith) ∙ e)

-- Bytes that arrive later do not change what the loop does with the frames that are there, and the
-- loop goes on from where it stopped.
frames-append :
    (v : Env) (fuel : ℕ) (a b : Bytes) (consumed c : ℕ) (s s' : Wire)
    → consumed ≤ length a
    → frames_loop v fuel a consumed s ≡ (ok c, s')
    → (frames v (a ++ b) consumed s ≡ frames v (a ++ b) c s') × (c ≤ length a)
unfolding frames_loop
frames-append v zero a b consumed c s s' h e = ground arith
frames-append v (suc fuel) a b consumed c s s' h e =
    elim (decode-cases (decode (drop consumed a))) [
      | inl waits ↦
          let (pc, ps) = pure-inv consumed c s s' (rw (waits, frames_loop) at e) in
          (frames-cong v (a ++ b) consumed c s s' pc ps, rw (← pc) h)
      | inr (inl (f, n, d)) ↦
          let (some_bytes, inside) = frame_inside a consumed h d in
          let (t, handled, rest) =
            continue-inv (handle_frame v f s) (frames_loop v fuel a (consumed + n))
              (rw (d, frames_loop) at e) in
          let (later, bound) = frames-append v fuel a b (consumed + n) c t s' inside rest in
          (
            frames-step v (a ++ b) consumed s (omega (arith, length-append a b))
                  (decode-later a b consumed h d)
                ∙ continue-ok (handle_frame v f s) (frames v (a ++ b) (consumed + n)) handled
                ∙ later,
            bound,
          )
      | inr (inr (x, d)) ↦ ground arith
    ]

-- The count of consumed bytes, moved.
unfoldable pub shift : ℕ → Result ConnError ℕ × Wire → Result ConnError ℕ × Wire
shift c (ok d, s) = (ok (c + d), s)
shift c (err e, s) = (err e, s)

continue-shift :
    (c : ℕ) (r : Result ConnError (Unit {0}) × Wire) (m n : Exec ℕ)
    → ((s : Wire) → m s ≡ shift c (n s))
    → continue r (λ _. m) ≡ shift c (continue r (λ _. n))
unfolding shift
continue-shift c (ok _, s) m n h = h s
continue-shift c (err e, s) m n h = refl

frames_loop-drop :
    (v : Env) (fuel : ℕ) (buf : Bytes) (c d : ℕ) (s : Wire)
    → frames_loop v fuel buf (c + d) s ≡ shift c (frames_loop v fuel (drop c buf) d s)
unfolding frames_loop shift
frames_loop-drop v zero buf c d s = refl
frames_loop-drop v (suc fuel) buf c d s = elim (decode-cases (decode (drop d (drop c buf)))) [
  | inl waits ↦ rw (moved waits, frames_loop, waits)
  | inr (inl (f, n, e)) ↦
      rw (moved e, frames_loop, e)
        (continue-shift c (handle_frame v f s) (frames_loop v fuel buf (c + d + n))
          (frames_loop v fuel (drop c buf) (d + n))
          (λ t. rw (add_assoc c d n) (frames_loop-drop v fuel buf c (d + n) t)))
  | inr (inr (x, e)) ↦ rw (moved e, frames_loop, e)
]
  where
    moved :
        {r : Result FrameError (Option (Frame × ℕ))}
        → decode (drop d (drop c buf)) ≡ r
        → decode (drop (c + d) buf) ≡ r
    moved e = ap decode (sym (drop-drop d c buf)) ∙ e

-- If the frames of a buffer were handled without an error and more bytes arrive then, what follows is
-- the same as if all bytes had arrived together: the same answers, limits, error and number of
-- consumed bytes.
pub frames-chunks :
    (v : Env) (a b : Bytes) (c : ℕ) (s s' : Wire)
    → frames v a 0 s ≡ (ok c, s')
    → frames v (a ++ b) 0 s ≡ shift c (frames v (drop c a ++ b) 0 s')
frames-chunks v a b c s s' e =
    let (later, bound) = frames-append v (suc (length a)) a b 0 c s s' (omega arith) e in
    let rest = frames_loop-drop v (suc (length (a ++ b))) (a ++ b) c 0 s' in
    later
    ∙ ap (λ m. frames_loop v (suc (length (a ++ b))) (a ++ b) m s') (sym (add-zero c))
    ∙ rest
    ∙ ap (λ buf. shift c (frames_loop v (suc (length (a ++ b))) buf 0 s')) (drop-append c a b bound)
    ∙ ap (shift c) (
        frames_loop-fuel v (suc (length (a ++ b))) (suc (length (drop c a ++ b))) (drop c a ++ b) 0
          s' (omega arith)
          (omega (arith, length-append a b, length-append (drop c a) b, length-drop c a))
          (omega arith))
