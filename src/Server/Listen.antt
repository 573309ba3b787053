-- ===== src/Server/Listen.antt =====
-- main.go: the options, the listening address, and the accept loop with its backoff. A duration is an
-- int64 count of nanoseconds. The goroutines that close the listener and the connections when the
-- context ends show only in what Accept, Read and Write answer.
pub mod Options
pub mod Accept
pub mod Served
pub mod Tests
use text.Mathlib.Text.{◌==◌ as str_eq}
use novagate.Base.{
  ℕ, ◌*◌, ◌+◌, String, Bool, true, false, not, ◌||◌, Option, none, some, List, [], ◌∷◌, Result, ok,
  err, if◌then◌else◌,
}
use novagate.Base.Int.{ℤ, pos, ◌*ℤ◌, wrap64, ltb_ℤ}
use novagate.Server.Context.{second}
use novagate.Server.Router.{Router, new_router}

abbrev pub millisecond : ℕ
millisecond = 1000000

pub record ServeOptions : Type 0 where
  pub addr : String
  pub idle_timeout : ℤ
  pub write_timeout : ℤ

abbrev pub default_serve_options : ServeOptions
default_serve_options = record {
  addr = ":9000";
  idle_timeout = pos (5 * 60 * second);
  write_timeout = pos (10 * second);
}

-- `none` is a nil option.
abbrev pub ServeOption : Type 0
ServeOption = Option (ServeOptions → ServeOptions)

apply_option : ServeOptions → ServeOption → ServeOptions
apply_option so none = so
apply_option so (some opt) = opt so

apply_from : ServeOptions → List ServeOption → ServeOptions
apply_from so [] = so
apply_from so (opt ∷ opts) = apply_from (apply_option so opt) opts

unfoldable pub apply_serve_options : List ServeOption → ServeOptions
unfolding apply_from apply_option
apply_serve_options opts = apply_from default_serve_options opts

abbrev pub with_idle_timeout : ℤ → ServeOption
with_idle_timeout d = some (λ o. record o { idle_timeout = d })

abbrev pub with_write_timeout : ℤ → ServeOption
with_write_timeout d = some (λ o. record o { write_timeout = d })

abbrev pub with_addr : String → ServeOption
with_addr addr = some (λ o. record o { addr = addr })

unfoldable pub normalize_addr : String → List ServeOption → String
normalize_addr addr opts =
    if not (str_eq addr "")
    then addr
    else (let so = apply_serve_options opts in if not (str_eq so.addr "") then so.addr else ":9000")

pub data Errno : Type 0 where
  eintr eagain econnaborted emfile enfile enobufs enomem epipe econnreset : Errno

-- An error by what errors.Is and net.Error tell of it.
pub record NetError : Type 0 where
  pub is_closed : Bool
  pub is_canceled : Bool
  pub is_timeout : Bool
  pub errno : Option Errno

retryable_errno : Option Errno → Bool
retryable_errno none = false
retryable_errno (some epipe) = false
retryable_errno (some econnreset) = false
retryable_errno (some _) = true

-- `none` is a nil error.
unfoldable pub is_retryable_accept_error : Option NetError → Bool
unfolding retryable_errno
is_retryable_accept_error none = false
is_retryable_accept_error (some e) = if e.is_timeout then true else retryable_errno e.errno

unfoldable pub next_accept_backoff : ℤ → ℤ
next_accept_backoff current =
    let next = wrap64 (current *ℤ pos 2) in if ltb_ℤ (pos second) next then pos second else next

benign_errno : Option Errno → Bool
benign_errno (some epipe) = true
benign_errno (some econnreset) = true
benign_errno _ = false

unfoldable pub is_benign_conn_error : Option NetError → Bool
unfolding benign_errno
is_benign_conn_error none = true
is_benign_conn_error (some e) =
    if e.is_closed then true else if e.is_canceled then true else benign_errno e.errno

-- What listener.Accept answers; a connection is known by its number.
pub data AcceptEvent : Type 0 where
  accepted : ℕ → AcceptEvent
  accept_failed : NetError → AcceptEvent

-- What the loop does: a goroutine that handles a connection under the options, or a sleep.
pub data Action : Type 0 where
  serve_conn : ℕ → ServeOptions → Action
  sleep : ℤ → Action

-- `accepting`: Accept has not answered yet.
pub data ServeEnd : Type 0 where
  returned_nil accepting no_setup : ServeEnd
  returned_error : NetError → ServeEnd
  setup_failed : String → ServeEnd

abbrev pub first_backoff : ℤ
first_backoff = pos (5 * millisecond)

abbrev pub and_before : Action → ServeEnd × List Action → ServeEnd × List Action
and_before a (end, actions) = (end, a ∷ actions)

unfoldable pub accept_loop : ServeOptions → ℤ → List AcceptEvent → ServeEnd × List Action
accept_loop so backoff [] = (accepting, [])
accept_loop so backoff (accepted conn ∷ events) =
    and_before (serve_conn conn so) (accept_loop so first_backoff events)
accept_loop so backoff (accept_failed e ∷ events) =
    let retried =
      and_before (sleep backoff) (accept_loop so (next_accept_backoff backoff) events) in
    if e.is_closed
    then (returned_nil, [])
    else if is_retryable_accept_error (some e)
    then retried
    else (returned_error e, [])

-- ServeWithContext, after which the handlers run against the router that setup left.
abbrev pub SetupFunc : Type 0
SetupFunc = Option (Router → Result String Router)

unfoldable pub serve_with_context :
    List AcceptEvent → SetupFunc → List ServeOption → ServeEnd × List Action
serve_with_context events none opts = (no_setup, [])
serve_with_context events (some setup) opts = elim (setup new_router) [
  | err e ↦ (setup_failed e, [])
  | ok router ↦ accept_loop (apply_serve_options opts) first_backoff events
]

unfoldable pub serve_with_options :
    List AcceptEvent → SetupFunc → List ServeOption → ServeEnd × List Action
serve_with_options events setup opts = serve_with_context events setup opts

unfoldable pub serve : List AcceptEvent → SetupFunc → ServeEnd × List Action
unfolding serve_with_options
serve events setup = serve_with_options events setup []

-- net.Listen by an address: an error, or what the listener's Accept answers.
abbrev pub Listen : Type 0
Listen = String → Result NetError (List AcceptEvent)

module _ (listen : Listen) where
  unfoldable pub listen_and_serve_with_context :
      String → SetupFunc → List ServeOption → ServeEnd × List Action
  unfolding serve_with_context
  listen_and_serve_with_context addr setup opts = elim (listen (normalize_addr addr opts)) [
    | err e ↦ (returned_error e, [])
    | ok events ↦ serve_with_context events setup opts
  ]

  unfoldable pub listen_and_serve_with_context_options :
      SetupFunc → List ServeOption → ServeEnd × List Action
  unfolding listen_and_serve_with_context
  listen_and_serve_with_context_options setup opts = listen_and_serve_with_context "" setup opts

  unfoldable pub listen_and_serve_with_options :
      String → SetupFunc → List ServeOption → ServeEnd × List Action
  unfolding listen_and_serve_with_context
  listen_and_serve_with_options addr setup opts = listen_and_serve_with_context addr setup opts

  unfoldable pub listen_and_serve_with_options_options :
      SetupFunc → List ServeOption → ServeEnd × List Action
  unfolding listen_and_serve_with_context_options
  listen_and_serve_with_options_options setup opts =
      listen_and_serve_with_context_options setup opts

  unfoldable pub listen_and_serve : String → SetupFunc → ServeEnd × List Action
  unfolding serve
  listen_and_serve addr setup = elim (listen (normalize_addr addr [])) [
    | err e ↦ (returned_error e, [])
    | ok events ↦ serve events setup
  ]
