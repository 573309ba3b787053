-- ===== src/Server/Handle/Write.antt =====
-- conn_handler.go, writeAll: what reaches the peer.
use mathlib.Core.List.{append-nil, append_assoc}
use novagate.Base.{
  ◌≤◌, ◌≡◌, inl, inr, refl, sym, ap, ◌∙◌, none, List, [], ◌∷◌, ◌++◌, ok, length, take, drop,
  take-append-drop, length-drop, All, arith, Option-cases,
}
use novagate.Protocol.Bytes.{Bytes}
use novagate.Server.Wire.{Wire, WriteResult}
use novagate.Server.Handle.{write_loop, write_all, after_write}

-- A write that takes at least one byte and does not fail.
abbrev pub Progresses : WriteResult → Type 0
Progresses w = (1 ≤ w.accepted) × (w.failure ≡ none)

regroup :
    (w : WriteResult) (bytes : Bytes) (s : Wire) (rest : List WriteResult)
    → (after_write s bytes w rest).sent ++ drop w.accepted bytes ≡ s.sent ++ bytes
regroup w bytes s rest =
    append_assoc s.sent (take w.accepted bytes) (drop w.accepted bytes)
    ∙ ap (λ t. s.sent ++ t) (take-append-drop w.accepted bytes)

write_loop_prefix :
    (writes : List WriteResult) (bytes : Bytes) (s : Wire)
    → (back : Bytes) × ((write_loop writes bytes s).1.sent ++ back ≡ s.sent ++ bytes)
unfolding write_loop
write_loop_prefix writes [] s = ([], refl)
write_loop_prefix [] (b ∷ bytes) s = (b ∷ bytes, refl)
write_loop_prefix (w ∷ writes) (b ∷ bytes) s = elim (Option-cases w.failure) [
  | inl going ↦
      let (back, e) =
        write_loop_prefix writes (drop w.accepted (b ∷ bytes))
          (after_write s (b ∷ bytes) w writes) in
      rw (going, write_loop) (back, e ∙ regroup w (b ∷ bytes) s writes)
  | inr (x, failed) ↦
      rw (failed, write_loop) (drop w.accepted (b ∷ bytes), regroup w (b ∷ bytes) s writes)
]

write_loop_ok :
    (writes : List WriteResult) (bytes : Bytes) (s : Wire)
    → (write_loop writes bytes s).0 ≡ ok tt
    → (write_loop writes bytes s).1.sent ≡ s.sent ++ bytes
unfolding write_loop
write_loop_ok writes [] s h = sym (append-nil s.sent)
write_loop_ok [] (b ∷ bytes) s h = cc
write_loop_ok (w ∷ writes) (b ∷ bytes) s h =
    let next =
      write_loop_ok writes (drop w.accepted (b ∷ bytes)) (after_write s (b ∷ bytes) w writes) in
    ground (arith, next, regroup w (b ∷ bytes) s writes)

-- Writing touches neither the limits nor the clock.
write_loop_keeps :
    (writes : List WriteResult) (bytes : Bytes) (s : Wire)
    → ((write_loop writes bytes s).1.cc ≡ s.cc) × ((write_loop writes bytes s).1.ticks ≡ s.ticks)
unfolding write_loop
write_loop_keeps writes [] s = (refl, refl)
write_loop_keeps [] (b ∷ bytes) s = (refl, refl)
write_loop_keeps (w ∷ writes) (b ∷ bytes) s =
    let next =
      write_loop_keeps writes (drop w.accepted (b ∷ bytes)) (after_write s (b ∷ bytes) w writes) in
    ground (arith, next)

-- If every write makes progress and there are as many as bytes, the loop ends with all bytes sent.
write_loop-done :
    (writes : List WriteResult) (bytes : Bytes) (s : Wire)
    → All Progresses writes
    → length bytes ≤ length writes
    → ((write_loop writes bytes s).0 ≡ ok tt)
      × ((write_loop writes bytes s).1.sent ≡ s.sent ++ bytes)
unfolding write_loop
write_loop-done writes [] s h k = (refl, sym (append-nil s.sent))
write_loop-done [] (b ∷ bytes) s h k = absurd (omega arith)
write_loop-done (w ∷ writes) (b ∷ bytes) s h k =
    let (done, all) =
      write_loop-done writes (drop w.accepted (b ∷ bytes)) (after_write s (b ∷ bytes) w writes) h.1
        (omega (arith, length-drop w.accepted (b ∷ bytes), h.0.0)) in
    rw (h.0.1, write_loop) (done, all ∙ regroup w (b ∷ bytes) s writes)

-- Whatever conn.Write answers, what was sent is a prefix of the data, behind what was sent before.
pub write_all_prefix :
    (bytes : Bytes) (s : Wire)
    → ((back : Bytes) × ((write_all bytes s).1.sent ++ back ≡ s.sent ++ bytes))
unfolding write_all
write_all_prefix bytes s = write_loop_prefix s.writes bytes s

-- Where writeAll returns nil, all of the data was sent.
pub write_all_ok :
    (bytes : Bytes) (s : Wire)
    → (write_all bytes s).0 ≡ ok tt
    → (write_all bytes s).1.sent ≡ s.sent ++ bytes
unfolding write_all
write_all_ok bytes s h = write_loop_ok s.writes bytes s h

-- writeAll sends all of the data and returns nil if no write fails, each takes at least a byte, and
-- there are as many writes as bytes.
pub write_all_done :
    (bytes : Bytes) (s : Wire)
    → All Progresses s.writes
    → length bytes ≤ length s.writes
    → ((write_all bytes s).0 ≡ ok tt) × ((write_all bytes s).1.sent ≡ s.sent ++ bytes)
unfolding write_all
write_all_done bytes s h k = write_loop-done s.writes bytes s h k

pub write_all_keeps :
    (bytes : Bytes) (s : Wire)
    → ((write_all bytes s).1.cc ≡ s.cc) × ((write_all bytes s).1.ticks ≡ s.ticks)
unfolding write_all
write_all_keeps bytes s = write_loop_keeps s.writes bytes s
