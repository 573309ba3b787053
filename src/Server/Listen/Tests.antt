-- ===== src/Server/Listen/Tests.antt =====
-- main.go: a server that is interrupted between two connections.
use novagate.Base.{String, ◌≡◌, refl, false, some, List, [], ◌∷◌, Result, ok, All}
use novagate.Server.Router.{Router, new_router}
use novagate.Server.Listen.{
  NetError, eintr, AcceptEvent, accepted, accept_failed, accepting, apply_serve_options,
  is_retryable_accept_error, listen_and_serve_with_context,
}
use novagate.Server.Listen.Accept.{IsRetried, IsBoundedSleep}
use novagate.Server.Listen.Served.{served, all_under, connections_served}

abbrev interrupted : NetError
interrupted = record {
  is_closed = false;
  is_canceled = false;
  is_timeout = false;
  errno = some eintr;
}

interrupted-IsRetried : IsRetried interrupted
unfolding is_retryable_accept_error
interrupted-IsRetried = (refl, refl)

abbrev events : List AcceptEvent
events = accepted 1 ∷ accept_failed interrupted ∷ accepted 2 ∷ []

abbrev keep_router : Router → Result String Router
keep_router r = ok r

connections_served_example :
    ((listen_and_serve_with_context (λ a. ok events) "" (some keep_router) []).0 ≡ accepting)
    × (served (listen_and_serve_with_context (λ a. ok events) "" (some keep_router) []).1
        ≡ all_under (apply_serve_options []) events)
    × All IsBoundedSleep (listen_and_serve_with_context (λ a. ok events) "" (some keep_router) []).1
connections_served_example =
    connections_served (λ a. ok events) "" keep_router [] events new_router refl refl
      (tt, (interrupted-IsRetried, (tt, tt)))
