-- ===== src/Codec/Tests.antt =====
-- internal/codec/message_codec.go: the codec on a small message.
use novagate.Base.{◌≡◌, refl, true, some, [], ◌∷◌}
use novagate.Base.Int.{pos}
use novagate.Protocol.Bytes.{Bytes}
use novagate.Protocol.Mapper.{Mapping}
use novagate.Codec.{RpcMessage, bytes, parse_flags, parse_uint8, tag_string, tag_uint}

-- Flags as a kitex tag may spell them.
flags_hexadecimal : parse_flags (tag_string (b'0' ∷ b'x' ∷ b'0' ∷ b'5' ∷ [])) ≡ 5
unfolding parse_flags parse_uint8
flags_hexadecimal = refl

-- "a.b" is bound to the command 7.
abbrev mapping : Mapping
mapping = record {
  method_command = (b'a' ∷ b'.' ∷ b'b' ∷ [], 7) ∷ [];
  command_method = (7, b'a' ∷ b'.' ∷ b'b' ∷ []) ∷ [];
  strict_mapping = true;
}

abbrev call : RpcMessage
call = record {
  service_name = b'a' ∷ [];
  method_name = b'b' ∷ [];
  seq_id = pos 3;
  content = bytes (9 ∷ []);
  flags_tag = some (some (tag_uint 1));
}

abbrev call_wire : Bytes
call_wire =
    0xCA ∷ 0xFE ∷ 1 ∷ 1 ∷ 0 ∷ 0 ∷ 0 ∷ 12 ∷ 31 ∷ 0 ∷ 7 ∷ 0 ∷ 0 ∷ 0 ∷ 0 ∷ 0 ∷ 0 ∷ 0 ∷ 3 ∷ 9 ∷ []
