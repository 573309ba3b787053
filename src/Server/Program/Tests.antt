-- ===== src/Server/Program/Tests.antt =====
-- cmd/server/main.go: setup from the start of the process, and a ping.
use novagate.Base.{String, ◌≡◌, refl, some, [], ◌∷◌, ◌++◌, ok, err, length, arith, true}
use novagate.Base.Int.{pos, wrap64, ◌+ℤ◌, ◌-ℤ◌, ◌*ℤ◌, quot_ℤ}
use novagate.Base.Key.{get, put}
use novagate.Server.Context.{allow, refill, spend}
use novagate.Server.Context.Bucket.{conn_at}
use novagate.Protocol.Bytes.{Bytes}
use novagate.Protocol.Frame.{Frame, encode, decode}
use novagate.Protocol.Message.{Message, encode_message}
use novagate.Protocol.Mapper.{
  Mapping, no_mappings, set_strict_command_mapping, trim_space, split_full_method, last_index_byte,
  bind, is_bound_elsewhere, resolve, map_method_to_command, register_full_method_command,
  unregistered,
}
use novagate.Protocol.Tests.{marked, marked-IsFaithful}
use novagate.Server.Router.{DispatchError, new_router}
use novagate.Server.Registry.{
  ascii, cmd_ping, cmd_user_login, cmd_order_create, Handlers, register_handlers,
}
use novagate.Server.Wire.{Wire, Env, allow_now}
use novagate.Server.Handle.{request_of}
use novagate.Server.Conn.{process_buffered_frames}
use novagate.Server.Tests.{writes_of, writes-progress, length-writes_of}
use novagate.Server.Program.{setup, bridge, register_commands}
use novagate.Server.Program.Answers.{program_answers, reply_text}

abbrev text : DispatchError → String
text e = "dispatch"

abbrev table : Mapping
table = record {
  method_command =
      (ascii "NovaService.Ping", cmd_ping)
      ∷ (ascii "UserService.Login", cmd_user_login)
      ∷ (ascii "OrderService.Create", cmd_order_create)
      ∷ [];
  command_method =
      (cmd_ping, ascii "NovaService.Ping")
      ∷ (cmd_user_login, ascii "UserService.Login")
      ∷ (cmd_order_create, ascii "OrderService.Create")
      ∷ [];
  strict_mapping = true;
}

register_commands-table : register_commands no_mappings ≡ ok table
unfolding register_commands register_full_method_command trim_space split_full_method
    last_index_byte bind get put set_strict_command_mapping
register_commands-table = refl

-- A second setup finds its own names and does not panic.
register_commands-again : register_commands table ≡ ok table
unfolding register_commands register_full_method_command trim_space split_full_method
    last_index_byte bind is_bound_elsewhere get put set_strict_command_mapping
register_commands-again = refl

-- A name that nobody registered is an error from then on.
map-unknown :
    map_method_to_command table (ascii "NovaService.Pong")
    ≡ err (unregistered (ascii "NovaService.Pong"))
unfolding map_method_to_command split_full_method trim_space last_index_byte resolve get
map-unknown = refl

abbrev handlers : Handlers
handlers = register_handlers []

abbrev served : Env
served = record {
  gzip = marked;
  router =
      bridge text handlers cmd_order_create
        (bridge text handlers cmd_user_login (bridge text handlers cmd_ping new_router));
  now = λ i. pos 0;
}

setup-served : setup text no_mappings [] new_router ≡ ok (table, handlers, served.router)
unfolding setup
setup-served = rw (register_commands-table, setup) refl

abbrev wire : Wire
wire = record { cc = conn_at 0 100 0; ticks = 0; writes = writes_of 22; sent = [] }

allowed : (allow_now served wire).0 ≡ ok true
unfolding allow_now allow refill spend wrap64 quot_ℤ ◌+ℤ◌ ◌-ℤ◌ ◌*ℤ◌
allowed = refl

abbrev ping : Message
ping = record { command = cmd_ping; request_id = 7; payload = 1 ∷ [] }

abbrev ping_wire : Bytes
ping_wire = 0xCA ∷ 0xFE ∷ 1 ∷ 0 ∷ 0 ∷ 0 ∷ 0 ∷ 11 ∷ 0 ∷ 1 ∷ 0 ∷ 0 ∷ 0 ∷ 0 ∷ 0 ∷ 0 ∷ 0 ∷ 7 ∷ 1 ∷ []

encode-ping :
    encode (record { version = 0; flags = 0; body = encode_message ping }) ≡ some ping_wire
unfolding encode encode_message
encode-ping = refl

program_answers_example :
    (out : Bytes) × ((process_buffered_frames served
        (record { wire = wire; buf = ping_wire ++ (0xCA ∷ []) })).0
      ≡ ok tt)
    × ((process_buffered_frames served
          (record { wire = wire; buf = ping_wire ++ (0xCA ∷ []) })).1.buf
        ≡ 0xCA ∷ [])
    × ((process_buffered_frames served
          (record { wire = wire; buf = ping_wire ++ (0xCA ∷ []) })).1.wire.sent
        ≡ out)
    × ((more : Bytes)
        → (f : Frame) × (decode (out ++ more) ≡ ok (some (f, length out)))
          × (request_of served f ≡ ok (record ping { payload = ascii "pong" })))
program_answers_example =
    program_answers text served wire no_mappings table [] handlers ping (ascii "pong") ping_wire
      (0xCA ∷ []) setup-served marked-IsFaithful (unfold reply_text in refl) (omega arith)
      encode-ping (unfold decode in refl) allowed (writes-progress 22)
      (omega (arith, length-writes_of 22))
