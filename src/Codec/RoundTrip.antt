-- ===== src/Codec/RoundTrip.antt =====
-- internal/codec/message_codec.go: what Encode writes, Decode reads back.
use novagate.Base.{ℕ, ◌^◌, ◌<◌}
use novagate.Base.Int.{ℤ, pos, negsuc}
use novagate.Protocol.Bytes.{Bytes}
use novagate.Protocol.Message.{Message}
use novagate.Codec.{RpcMessage, request_id_of}

abbrev pub IsInt32 : ℤ → Type 0
IsInt32 (pos n) = n < 2 ^ 31
IsInt32 (negsuc n) = n < 2 ^ 31

-- The message that Encode puts into the frame.
abbrev pub rpc_message : RpcMessage → ℕ → Bytes → Message
rpc_message msg cmd payload = record {
  command = cmd;
  request_id = request_id_of msg.seq_id;
  payload = payload;
}
