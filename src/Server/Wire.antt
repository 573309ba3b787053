-- ===== src/Server/Wire.antt =====
-- What a connection's goroutine reads and writes as it handles frames: the limits, the clock, and
-- the peer's side of conn.Write. A function of conn_handler.go is an action on this state, which
-- keeps what was done before an error.
pub mod Keeps
use novagate.Base.{
  ℕ, zero, suc, ◌+◌, String, Bool, Option, none, some, List, [], ◌∷◌, ◌++◌, Result, ok, err, take,
  drop,
}
use novagate.Base.Int.{ℤ}
use novagate.Protocol.Bytes.{Bytes}
use novagate.Protocol.Frame.{FrameError}
use novagate.Protocol.Compress.{Gzip, BodyError}
use novagate.Protocol.Message.{MessageError}
use novagate.Server.Router.{Router, DispatchError}
use novagate.Server.Context.{ConnContext, allow}

-- What one conn.Write answers: how many bytes it took, and its error.
pub record WriteResult : Type 0 where
  pub accepted : ℕ
  pub failure : Option String

pub record Wire : Type 0 where
  pub cc : ConnContext
  pub ticks : ℕ
  pub writes : List WriteResult
  pub sent : Bytes

-- The errors of the handler. `frame_panic` is protocol.Encode's panic, which ends the process;
-- `write_blocked` is no Go value: the peer has not answered a conn.Write yet. So is `out_of_fuel`.
pub data ConnError : Type 0 where
  rate_limited quota_exceeded idle_timeout eof frame_panic write_blocked out_of_fuel nil_router :
      ConnError
  frame_failed : FrameError → ConnError
  body_failed : BodyError → ConnError
  message_failed : MessageError → ConnError
  dispatch_failed : DispatchError → ConnError
  write_failed : String → ConnError
  read_failed : String → ConnError

-- The rest of the process: gzip, the router, and the clock, whose i-th reading is `now i`.
pub record Env : Type 0 where
  pub gzip : Gzip
  pub router : Router
  pub now : ℕ → ℤ

abbrev pub Exec {ℓ} : Type ℓ → Type ℓ
Exec A = Wire → Result ConnError A × Wire

module _ {ℓ} {A : Type ℓ} where
  abbrev pub pure : A → Exec A
  pure a s = (ok a, s)

  abbrev pub raise : ConnError → Exec A
  raise e s = (err e, s)

  abbrev pub lift : Result ConnError A → Exec A
  lift r s = (r, s)

module _ {ℓ κ} {A : Type ℓ} {B : Type κ} where
  abbrev pub continue : Result ConnError A × Wire → (A → Exec B) → Result ConnError B × Wire
  continue (ok a, s) f = f a s
  continue (err e, s) f = (err e, s)

  infixl 5 ◌>>=◌
  abbrev pub ◌>>=◌ : Exec A → (A → Exec B) → Exec B
  ◌>>=◌ m f s = continue (m s) f

infixl 5 ◌>>◌
abbrev pub ◌>>◌ {ℓ} : {B : Type ℓ} → Exec (Unit {0}) → Exec B → Exec B
m >> n = m >>= λ _. n

-- c.Allow() at the clock's next reading
unfoldable pub allow_now : Env → Exec Bool
allow_now v s =
    let (cc, allowed) = allow s.cc (v.now s.ticks) in
    (ok allowed, record s { cc = cc; ticks = s.ticks + 1 })
