-- ===== src/Server/Handle/Shape.antt =====
-- conn_handler.go, handleFrame: what an answer can do to the connection, and which errors it has.
use novagate.Base.{
  ◌≡◌, ◌≢◌, refl, ◌⊎◌, inl, inr, Option, none, some, List, [], ◌∷◌, Result, ok, err, map_err,
  Bool-cases, arith, drop,
}
use novagate.Base.Int.{ℤ}
use novagate.Protocol.Bytes.{Bytes, has_flag}
use novagate.Protocol.Frame.{Frame, flag_one_way}
use novagate.Protocol.Message.{Message}
use novagate.Server.Router.{dispatch}
use novagate.Server.Wire.{
  Wire, WriteResult, Exec, Env, ConnError, out_of_fuel, dispatch_failed, lift, ◌>>=◌, allow_now,
}
use novagate.Server.Wire.Keeps.{HasQuota, Keeps, bind-Keeps, allow_now-Keeps}
use novagate.Server.Handle.{
  write_loop, write_all, after_write, response_bytes, respond, request_of, answer, handle_frame,
}
use novagate.Server.Handle.Write.{write_all_keeps}

-- An action that leaves the wire alone or ends in one writeAll, and never runs out of fuel.
record IsPlain (m : Exec (Unit {0})) (s : Wire) : Type 0 where
  effect : ((m s).1 ≡ s) ⊎ ((out : Bytes) × (m s ≡ write_all out s))
  fueled : (m s).0 ≢ err out_of_fuel

module _ {ℓ} {A : Type ℓ} where
  lift-IsPlain :
      (r : Result ConnError A) (f : A → Exec (Unit {0})) (s : Wire)
      → r ≢ err out_of_fuel
      → ((a : A) → IsPlain (f a) s)
      → IsPlain (lift r >>= f) s
  lift-IsPlain (ok a) f s h k = record { effect = (k a).effect; fueled = (k a).fueled }
  lift-IsPlain (err e) f s h k = record { effect = inl refl; fueled = λ p. h (ground arith) }

write_loop-fueled :
    (writes : List WriteResult) (bytes : Bytes) (s : Wire)
    → (write_loop writes bytes s).0 ≢ err out_of_fuel
unfolding write_loop
write_loop-fueled writes [] s p = cc
write_loop-fueled [] (b ∷ bytes) s p = cc
write_loop-fueled (w ∷ writes) (b ∷ bytes) s p = ground (
  arith,
  write_loop-fueled writes (drop w.accepted (b ∷ bytes)) (after_write s (b ∷ bytes) w writes),
)

write_all-IsPlain : (out : Bytes) (s : Wire) → IsPlain (write_all out) s
write_all-IsPlain out s = record {
  effect = inr (out, refl);
  fueled = unfold write_all in write_loop-fueled s.writes out s;
}

response_bytes-fueled :
    (v : Env) (frame : Frame) (msg resp : Message)
    → response_bytes v frame.flags msg resp ≢ err out_of_fuel
unfolding response_bytes
response_bytes-fueled v frame msg resp p = ground arith

respond-IsPlain :
    (v : Env) (frame : Frame) (msg : Message) (resp : Option Message) (s : Wire)
    → IsPlain (respond v frame.flags msg resp) s
unfolding respond
respond-IsPlain v frame msg none s = record { effect = inl refl; fueled = λ p. cc }
respond-IsPlain v frame msg (some resp) s = elim (Bool-cases (has_flag frame.flags flag_one_way)) [
  | inl one_way ↦ rw (one_way, respond) (record { effect = inl refl; fueled = λ p. cc })
  | inr two_way ↦
      rw (two_way, respond)
        (lift-IsPlain (response_bytes v frame.flags msg resp) write_all s
          (response_bytes-fueled v frame msg resp) (λ out. write_all-IsPlain out s))
]

request_of-fueled : (v : Env) (frame : Frame) → request_of v frame ≢ err out_of_fuel
unfolding request_of
request_of-fueled v frame p = ground arith

dispatch_failed-fueled :
    (v : Env) (msg : Message) → map_err dispatch_failed (dispatch v.router msg) ≢ err out_of_fuel
dispatch_failed-fueled v msg p = ground arith

answer-IsPlain : (v : Env) (frame : Frame) (s : Wire) → IsPlain (answer v frame) s
unfolding answer
answer-IsPlain v frame s = lift-IsPlain (request_of v frame) _ s (request_of-fueled v frame) λ msg.
    lift-IsPlain (map_err dispatch_failed (dispatch v.router msg)) _ s
      (dispatch_failed-fueled v msg) λ resp. respond-IsPlain v frame msg resp s

pub handle_frame-fueled :
    (v : Env) (frame : Frame) (s : Wire) → (handle_frame v frame s).0 ≢ err out_of_fuel
unfolding handle_frame allow_now
handle_frame-fueled v frame s p = ground (arith, (answer-IsPlain v frame (allow_now v s).1).fueled)

module _ (v : Env) (frame : Frame) (used limit : ℤ) where
  plain-HasQuota :
      (m : Exec (Unit {0})) (s : Wire)
      → IsPlain m s
      → HasQuota used limit s
      → HasQuota used limit (m s).1
  plain-HasQuota m s p h = elim p.effect [
    | inl same ↦ rw same h
    | inr (out, wrote) ↦ rw wrote (ground (arith, write_all_keeps out s))
  ]

  -- Handling a frame leaves the connection's quota alone.
  pub handle_frame-HasQuota : Keeps (HasQuota used limit) (handle_frame v frame)
  unfolding handle_frame
  handle_frame-HasQuota =
      bind-Keeps (HasQuota used limit) (allow_now v) _ (allow_now-Keeps v used limit)
        (λ allowed s h.
          ground (arith, plain-HasQuota (answer v frame) s (answer-IsPlain v frame s) h))
