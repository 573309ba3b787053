-- ===== src/Server/Router.antt =====
-- router.go, and BridgeProtocolHandler of main.go. A handler is a function of the message; its error
-- is a text. The lock makes each call one step.
use novagate.Base.{
  ℕ, String, ◌==◌, ◌≡◌, Option, none, some, [], Result, ok, err, ◌>>=◌, map_err, if◌then◌else◌,
  arith,
}
use novagate.Base.Key.{GoMap, get, put, get-put, nat_key}
use novagate.Protocol.Bytes.{Bytes}
use novagate.Protocol.Message.{Message}

abbrev pub HandlerError : Type 0
HandlerError = String

-- `ok none` is (nil, nil): no response.
abbrev pub Handler : Type 0
Handler = Message → Result HandlerError (Option Message)

-- A nil handler may be registered: it is `none`.
pub record Router : Type 0 where
  pub handlers : GoMap ℕ (Option Handler)

pub data DispatchError : Type 0 where
  unknown_command : ℕ → DispatchError
  handler_failed : HandlerError → DispatchError

abbrev pub new_router : Router
new_router = record { handlers = [] }

unfoldable pub register : Router → ℕ → Option Handler → Router
register r cmd h = record r { handlers = put r.handlers cmd h }

-- `h := r.handlers[m.Command]` is nil for a missing command and for a nil handler.
abbrev pub handler_of : Option (Option Handler) → Option Handler
handler_of none = none
handler_of (some h) = h

unfoldable pub dispatch : Router → Message → Result DispatchError (Option Message)
dispatch r m = elim (handler_of (get r.handlers m.command)) [
  | none ↦ err (unknown_command m.command)
  | some h ↦ map_err handler_failed (h m)
]

-- The response keeps the request's id, and carries the bridge's command.
unfoldable pub bridge_protocol_handler : ℕ → (Bytes → Result HandlerError Bytes) → Handler
bridge_protocol_handler cmd fn m = do
  out ← fn m.payload
  ok (some (record { command = cmd; request_id = m.request_id; payload = out }))

-- A message goes to the handler that was registered last for its command, and a registration changes
-- nothing for the other commands.
pub dispatch-register :
    (r : Router) (cmd : ℕ) (h : Handler) (m : Message)
    → dispatch (register r cmd (some h)) m
      ≡ (if cmd == m.command then map_err handler_failed (h m) else dispatch r m)
unfolding dispatch register
dispatch-register r cmd h m = ground (arith, get-put r.handlers cmd m.command (some h))

-- A nil handler unregisters its command: dispatch fails as for a command that nobody registered.
pub dispatch-register_nil :
    (r : Router) (cmd : ℕ) (m : Message)
    → dispatch (register r cmd none) m
      ≡ (if cmd == m.command then err (unknown_command m.command) else dispatch r m)
unfolding dispatch register
dispatch-register_nil r cmd m = ground (arith, get-put r.handlers cmd m.command none)
