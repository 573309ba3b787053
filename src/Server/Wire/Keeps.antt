-- ===== src/Server/Wire/Keeps.antt =====
-- What an action on the wire leaves alone, one rule for each way to build an action.
use novagate.Base.{◌≡◌, refl, arith, Result, ok, err}
use novagate.Base.Int.{ℤ}
use novagate.Server.Context.{ConnContext, allow}
use novagate.Server.Wire.{Wire, Exec, Env, ConnError, continue, ◌>>=◌, allow_now}

-- The quota of the connection: the bytes in use and their limit.
abbrev pub HasQuota : ℤ → ℤ → Wire → Type 0
HasQuota used limit s = (s.cc.buffer_used ≡ used) × (s.cc.max_buffer ≡ limit)

abbrev pub Keeps {ℓ κ} : {A : Type ℓ} → (Wire → Type κ) → Exec A → Type κ
Keeps P m = (s : Wire) → P s → P (m s).1

module _ {ℓ κ μ} {A : Type ℓ} {B : Type κ} (P : Wire → Type μ) where
  continue_keeps :
      (r : Result ConnError A × Wire) (f : A → Exec B)
      → P r.1
      → ((a : A) → r.0 ≡ ok a → Keeps P (f a))
      → P (continue r f).1
  continue_keeps (ok a, s) f h k = k a refl s h
  continue_keeps (err e, s) f h k = h

  pub bind-Keeps :
      (m : Exec A) (f : A → Exec B) → Keeps P m → ((a : A) → Keeps P (f a)) → Keeps P (m >>= f)
  bind-Keeps m f h k s p = continue_keeps (m s) f (h s p) (λ a e. k a)

allow_quota :
    (c : ConnContext) (now : ℤ)
    → ((allow c now).0.buffer_used ≡ c.buffer_used) × ((allow c now).0.max_buffer ≡ c.max_buffer)
unfolding allow
allow_quota c now = ground arith

pub allow_now-Keeps : (v : Env) (used limit : ℤ) → Keeps (HasQuota used limit) (allow_now v)
unfolding allow_now
allow_now-Keeps v used limit s h = ground (arith, allow_quota s.cc (v.now s.ticks))
