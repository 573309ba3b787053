-- ===== src/Server/Registry.antt =====
-- internal/dispatcher and internal/service: the process-wide table of payload handlers, and the
-- handlers of the three example commands (protocol/commands.go).
use Prim.Native.Char.{code}
use novagate.Base.{
  ℕ, String, ◌==◌, if◌then◌else◌, arith, ◌≡◌, none, some, [], ◌∷◌, Result, ok, err, map_err,
}
use novagate.Base.Key.{GoMap, get, put, get-put, nat_key}
use novagate.Protocol.Bytes.{Bytes}
use novagate.Server.Router.{HandlerError, DispatchError, unknown_command, handler_failed}

-- The bytes of an ASCII text.
abbrev pub ascii : String → Bytes
ascii String.[] = []
ascii (String.◌∷◌ c s) = code c ∷ ascii s

abbrev pub cmd_ping : ℕ
cmd_ping = 0x0001

abbrev pub cmd_user_login : ℕ
cmd_user_login = 0x0101

abbrev pub cmd_order_create : ℕ
cmd_order_create = 0x0201

abbrev pub PayloadHandler : Type 0
PayloadHandler = Bytes → Result HandlerError Bytes

abbrev pub Handlers : Type 0
Handlers = GoMap ℕ PayloadHandler

unfoldable pub register_payload : Handlers → ℕ → PayloadHandler → Handlers
register_payload handlers cmd h = put handlers cmd h

unfoldable pub dispatch_payload : Handlers → ℕ → Bytes → Result DispatchError Bytes
dispatch_payload handlers cmd payload = elim (get handlers cmd) [
  | none ↦ err (unknown_command cmd)
  | some h ↦ map_err handler_failed (h payload)
]

unfoldable pub register_handlers : Handlers → Handlers
register_handlers handlers =
    register_payload
      (register_payload (register_payload handlers cmd_ping (λ payload. ok (ascii "pong")))
        cmd_user_login (λ payload. ok (ascii "ok")))
      cmd_order_create (λ payload. ok (ascii "ok"))

-- NovaService.Handle
unfoldable pub handle_nova : PayloadHandler
handle_nova payload = ok payload

dispatch-register_payload :
    (handlers : Handlers) (c cmd : ℕ) (h : PayloadHandler) (payload : Bytes)
    → dispatch_payload (register_payload handlers c h) cmd payload ≡ (
        if c == cmd
        then map_err handler_failed (h payload)
        else dispatch_payload handlers cmd payload)
unfolding dispatch_payload register_payload
dispatch-register_payload handlers c cmd h payload = ground (arith, get-put handlers c cmd h)

-- RegisterHandlers answers "pong" to a ping and "ok" to a login and an order, whatever the payload,
-- and leaves every other command as it was.
pub dispatch-register_handlers :
    (handlers : Handlers) (cmd : ℕ) (payload : Bytes)
    → dispatch_payload (register_handlers handlers) cmd payload ≡ (
        if cmd_order_create == cmd
        then ok (ascii "ok")
        else if cmd_user_login == cmd
        then ok (ascii "ok")
        else if cmd_ping == cmd
        then ok (ascii "pong")
        else dispatch_payload handlers cmd payload)
unfolding register_handlers
dispatch-register_handlers handlers cmd payload = simp dispatch-register_payload
