-- ===== src/Server/Program.antt =====
-- cmd/server/main.go: setup, which wires the three example commands to their handlers. The package
-- variables of protocol and of internal/dispatcher are arguments and results; a handler finds the table of
-- the dispatcher as setup leaves it, since nothing registers later.
pub mod Answers
pub mod Tests
use novagate.Base.{ℕ, String, Bool, true, some, Result, ok, err, ◌>>=◌, map_err}
use novagate.Protocol.Bytes.{Bytes}
use novagate.Protocol.Mapper.{
  Mapping, RegisterPanic, register_full_method_command, set_strict_command_mapping,
}
use novagate.Server.Router.{Router, DispatchError, register, bridge_protocol_handler}
use novagate.Server.Registry.{
  ascii, cmd_ping, cmd_user_login, cmd_order_create, Handlers, dispatch_payload, register_handlers,
}

-- The command table.
unfoldable pub register_commands : Mapping → Result RegisterPanic Mapping
register_commands m = do
  m1 ← register_full_method_command m (ascii "NovaService.Ping") cmd_ping
  m2 ← register_full_method_command m1 (ascii "UserService.Login") cmd_user_login
  m3 ← register_full_method_command m2 (ascii "OrderService.Create") cmd_order_create
  ok (set_strict_command_mapping m3 true)

-- `error_text` is the text of an error of dispatcher.Dispatch.
module _ (error_text : DispatchError → String) where
  unfoldable pub bridge : Handlers → ℕ → Router → Router
  bridge handlers cmd r = register r cmd (
      some (
        bridge_protocol_handler cmd
          (λ payload. map_err error_text (dispatch_payload handlers cmd payload))))

  unfoldable pub setup :
      Mapping → Handlers → Router → Result RegisterPanic (Mapping × Handlers × Router)
  unfolding register_commands bridge
  setup m handlers r = do
    m' ← register_commands m
    let handlers' = register_handlers handlers
    ok (
      m',
      handlers',
      bridge handlers' cmd_order_create
          (bridge handlers' cmd_user_login (bridge handlers' cmd_ping r)),
    )
