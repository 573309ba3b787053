-- ===== src/Server/Listen/Served.antt =====
-- main.go: what becomes of the connections that a server accepts.
use novagate.Base.{ℕ, String, ◌≡◌, refl, ap, some, List, [], ◌∷◌, ok, Result, All}
use novagate.Base.Int.{ℤ}
use novagate.Server.Router.{Router, new_router}
use novagate.Server.Listen.{
  ServeOptions, ServeOption, apply_serve_options, normalize_addr, AcceptEvent, accepted,
  accept_failed, Action, serve_conn, sleep, accepting, next_accept_backoff, accept_loop,
  first_backoff, serve_with_context, Listen, listen_and_serve_with_context,
}
use novagate.Server.Listen.Accept.{IsRetried, IsBoundedSleep, accept_loop_bounds, retry_step}

-- The connections that are handled, each with the options that hold for it.
abbrev pub served : List Action → List (ℕ × ServeOptions)
served [] = []
served (serve_conn c so ∷ actions) = (c, so) ∷ served actions
served (sleep d ∷ actions) = served actions

abbrev pub all_under : ServeOptions → List AcceptEvent → List (ℕ × ServeOptions)
all_under so [] = []
all_under so (accepted c ∷ events) = (c, so) ∷ all_under so events
all_under so (accept_failed e ∷ events) = all_under so events

-- What does not end the loop.
abbrev pub GoesOn : AcceptEvent → Type 0
GoesOn (accepted c) = Unit
GoesOn (accept_failed e) = IsRetried e

accept_loop-served :
    (so : ServeOptions) (b : ℤ) (events : List AcceptEvent)
    → All GoesOn events
    → ((accept_loop so b events).0 ≡ accepting)
      × (served (accept_loop so b events).1 ≡ all_under so events)
unfolding accept_loop
accept_loop-served so b [] h = (refl, refl)
accept_loop-served so b (accepted c ∷ events) (_, h) =
    let (open_, all) = accept_loop-served so first_backoff events h in
    (open_, ap (λ cs. (c, so) ∷ cs) all)
accept_loop-served so b (accept_failed e ∷ events) (again, h) =
    rw (retry_step so b e events again) (accept_loop-served so (next_accept_backoff b) events h)

-- A server that can listen at its address, and whose setup succeeds, goes on accepting as long as no
-- failure of Accept is final: every connection that is accepted is handled, in their order and under the
-- options given, whatever retryable failures come between, and no sleep lasts longer than a second or
-- less than 5 ms.
pub connections_served :
    (listen : Listen) (addr : String) (setup : Router → Result String Router)
    (opts : List ServeOption) (events : List AcceptEvent) (router : Router)
    → listen (normalize_addr addr opts) ≡ ok events
    → setup new_router ≡ ok router
    → All GoesOn events
    → ((listen_and_serve_with_context listen addr (some setup) opts).0 ≡ accepting)
      × (served (listen_and_serve_with_context listen addr (some setup) opts).1
          ≡ all_under (apply_serve_options opts) events)
      × All IsBoundedSleep (listen_and_serve_with_context listen addr (some setup) opts).1
unfolding listen_and_serve_with_context serve_with_context
connections_served listen addr setup opts events router up done on =
    let (open_, all) = accept_loop-served (apply_serve_options opts) first_backoff events on in
    let whole : listen_and_serve_with_context listen addr (some setup) opts
        ≡ accept_loop (apply_serve_options opts) first_backoff events =
      rw (listen_and_serve_with_context, up, serve_with_context, done) refl in
    rw whole (open_, all, accept_loop_bounds (apply_serve_options opts) events)
