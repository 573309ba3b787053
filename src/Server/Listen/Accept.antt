-- ===== src/Server/Listen/Accept.antt =====
-- main.go, acceptLoop: the backoff between failed accepts, and what the loop does with its events.
use native.Mathlib.Nat.{pow-suc}
use Prim.Native.Nat.{min}
use novagate.Base.{
  ℕ, zero, suc, ◌*◌, ◌^◌, ◌≤◌, ◌≡◌, refl, ap, ◌∙◌, inl, inr, true, false, some, List, [], ◌∷◌,
  arith, All, length, Bool-cases,
}
use novagate.Base.Int.{ℤ, pos, pos-*ℤ, wrap64-pos}
use novagate.Server.Context.{second}
use novagate.Server.Listen.{
  ServeOptions, NetError, AcceptEvent, accepted, accept_failed, Action, serve_conn, sleep,
  millisecond, next_accept_backoff, accept_loop, first_backoff, and_before,
  is_retryable_accept_error, accepting,
}

next_lem : (n : ℕ) → n ≤ second → next_accept_backoff (pos n) ≡ pos (min (2 * n) second)
unfolding next_accept_backoff
next_lem n h = rw (pos-*ℤ n 2, wrap64-pos (n * 2) (omega arith)) (ground arith)

-- The i-th backoff in a row of failures: 5 ms doubled i times, up to one second.
abbrev pub backoff_of : ℕ → ℕ
backoff_of i = min (2 ^ i * (5 * millisecond)) second

next-backoff_of : (i : ℕ) → next_accept_backoff (pos (backoff_of i)) ≡ pos (backoff_of (suc i))
next-backoff_of i = next_lem (backoff_of i) (omega arith) ∙ ap pos (rw pow-suc (omega arith))

abbrev pub doubling : ℕ → ℕ → List Action
doubling i zero = []
doubling i (suc k) = sleep (pos (backoff_of i)) ∷ doubling (suc i) k

-- A failure after which the loop goes on.
abbrev pub IsRetried : NetError → Type 0
IsRetried e = (e.is_closed ≡ false) × (is_retryable_accept_error (some e) ≡ true)

abbrev pub failures : List NetError → List AcceptEvent
failures [] = []
failures (e ∷ es) = accept_failed e ∷ failures es

pub retry_step :
    (so : ServeOptions) (b : ℤ) (e : NetError) (events : List AcceptEvent)
    → IsRetried e
    → accept_loop so b (accept_failed e ∷ events)
      ≡ and_before (sleep b) (accept_loop so (next_accept_backoff b) events)
unfolding accept_loop
retry_step so b e events (listening, again) = ground arith

failures_from :
    (so : ServeOptions) (i : ℕ) (es : List NetError)
    → All IsRetried es
    → accept_loop so (pos (backoff_of i)) (failures es) ≡ (accepting, doubling i (length es))
failures_from so i [] h = unfold accept_loop in refl
failures_from so i (e ∷ es) h =
    retry_step so (pos (backoff_of i)) e (failures es) h.0
    ∙ ap (and_before (sleep (pos (backoff_of i)))) (
        ap (λ b. accept_loop so b (failures es)) (next-backoff_of i)
        ∙ failures_from so (suc i) es h.1)

-- On a row of retryable failures the loop sleeps once for each and goes on accepting, and the sleeps
-- double from 5 ms up to one second.
pub accept_loop-failures :
    (so : ServeOptions) (es : List NetError)
    → All IsRetried es
    → accept_loop so first_backoff (failures es) ≡ (accepting, doubling 0 (length es))
accept_loop-failures so es h = failures_from so 0 es h

-- A sleep is between 5 ms and a second.
abbrev pub IsBoundedSleep : Action → Type 0
IsBoundedSleep (serve_conn c so) = Unit
IsBoundedSleep (sleep d) = (n : ℕ) × (d ≡ pos n) × (5 * millisecond ≤ n) × (n ≤ second)

accept_loop-sleeps :
    (so : ServeOptions) (n : ℕ) (events : List AcceptEvent)
    → 5 * millisecond ≤ n
    → n ≤ second
    → All IsBoundedSleep (accept_loop so (pos n) events).1
unfolding accept_loop is_retryable_accept_error
accept_loop-sleeps so n [] lo hi = tt
accept_loop-sleeps so n (accepted c ∷ events) lo hi =
    (tt, accept_loop-sleeps so (5 * millisecond) events (omega arith) (omega arith))
accept_loop-sleeps so n (accept_failed e ∷ events) lo hi =
    let ih = accept_loop-sleeps so (min (2 * n) second) events (omega arith) (omega arith) in
    elim (Bool-cases e.is_closed) [
      | inl closed ↦ rw closed tt
      | inr listening ↦ elim (Bool-cases (is_retryable_accept_error (some e))) [
        | inl again ↦ rw (listening, again) ((n, refl, lo, hi), rw (next_lem n hi) ih)
        | inr fatal ↦ rw (listening, fatal) tt
      ]
    ]

-- Whatever Accept answers, the loop never sleeps less than 5 ms or more than a second.
pub accept_loop_bounds :
    (so : ServeOptions) (events : List AcceptEvent)
    → All IsBoundedSleep (accept_loop so first_backoff events).1
accept_loop_bounds so events =
    accept_loop-sleeps so (5 * millisecond) events (omega arith) (omega arith)
