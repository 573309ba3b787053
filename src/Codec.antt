-- ===== src/Codec.antt =====
-- internal/codec/message_codec.go: a kitex message to and from one frame. Of kitex the codec uses what
-- it asks of a message and of a byte buffer, which are arguments and results here.
mod Flags
pub mod RoundTrip
pub mod Tests
use novagate.Base.{
  ℕ, ◌+◌, ◌-◌, ◌*◌, ◌%◌, ◌^◌, String, Bool, true, false, Option, none, some, List, [], ◌∷◌, ◌++◌,
  Result, ok, err, ◌>>=◌, map_err, ◌==◌, length, if◌then◌else◌,
}
use novagate.Base.Int.{ℤ, pos, negsuc}
use novagate.Protocol.Bytes.{Bytes}
use novagate.Protocol.Frame.{Frame, FrameError, decode, encode}
use novagate.Protocol.Message.{Message, MessageError, encode_message, decode_message}
use novagate.Protocol.Compress.{Gzip, BodyError, encode_frame_body, decode_frame_body}
use novagate.Protocol.Mapper.{Mapping, MapError, map_method_to_command, join}
pub use Flags.{TagValue, tag_uint, tag_int, tag_string, tag_other, parse_flags-lt}
unfoldable pub use Flags.{parse_flags, parse_uint8}

-- msg.Data() by its dynamic type; a pointer's target, or `none` if the pointer is nil.
pub data MessageData : Type 0 where
  bytes : Bytes → MessageData
  bytes_pointer : Option Bytes → MessageData
  interface_pointer : Option Bytes → MessageData
  nil_data unsupported : MessageData

-- What Encode asks of a message. `flags_tag` is `none` if Tags() is nil, `some none` if the map has
-- no entry for the flags.
pub record RpcMessage : Type 0 where
  pub service_name : Bytes
  pub method_name : Bytes
  pub seq_id : ℤ
  pub content : MessageData
  pub flags_tag : Option (Option TagValue)

-- `encode_panic` is protocol.Encode's panic.
pub data CodecError : Type 0 where
  unsupported_data empty_input incomplete_frame encode_panic : CodecError
  map_failed : MapError → CodecError
  body_failed : BodyError → CodecError
  frame_failed : FrameError → CodecError
  message_failed : MessageError → CodecError
  read_failed : String → CodecError

-- The payload that Encode sends, by the type switch.
unfoldable pub payload_of : MessageData → Result CodecError Bytes
payload_of (bytes v) = ok v
payload_of (bytes_pointer (some v)) = ok v
payload_of (bytes_pointer none) = ok []
payload_of nil_data = ok []
payload_of (interface_pointer v) = err unsupported_data
payload_of unsupported = err unsupported_data

-- uint64 of an int32
unfoldable pub request_id_of : ℤ → ℕ
request_id_of (pos n) = n
request_id_of (negsuc n) = 2 ^ 64 - 1 - n

-- A missing entry reads as nil, which is no flag.
unfoldable pub flags_of : Option (Option TagValue) → ℕ
flags_of none = 0
flags_of (some none) = 0
flags_of (some (some v)) = parse_flags v

frame_bytes : ℕ × Bytes → Result CodecError Bytes
frame_bytes (flags, body) = elim (encode (record { version = 0; flags = flags; body = body })) [
  | none ↦ err encode_panic
  | some out ↦ ok out
]

module _ (g : Gzip) where
  -- Encode up to out.WriteBinary: the bytes that it writes.
  unfoldable pub encode_rpc : Mapping → RpcMessage → Result CodecError Bytes
  unfolding frame_bytes
  encode_rpc m msg = do
    cmd ← map_err map_failed (map_method_to_command m (join msg.service_name msg.method_name))
    payload ← payload_of msg.content
    let my_msg : Message = record {
      command = cmd;
      request_id = request_id_of msg.seq_id;
      payload = payload;
    }
    framed ←
        map_err body_failed (encode_frame_body g (flags_of msg.flags_tag) (encode_message my_msg))
    frame_bytes framed

pub record Tags : Type 0 where
  pub command : ℕ
  pub request_id : ℕ
  pub flags : ℕ

-- What Decode leaves in the message; the tags are written if the message has a map for them.
pub record Decoded : Type 0 where
  pub content : MessageData
  pub payload_len : ℕ
  pub tags : Option Tags

-- Only a pointer that is not nil is written through.
unfoldable pub store_payload : MessageData → Bytes → MessageData
store_payload (bytes_pointer (some _)) payload = bytes_pointer (some payload)
store_payload (interface_pointer (some _)) payload = interface_pointer (some payload)
store_payload other payload = other

decode_whole : Result FrameError (Option (Frame × ℕ)) → Result CodecError Frame
decode_whole (err e) = err (frame_failed e)
decode_whole (ok none) = err incomplete_frame
decode_whole (ok (some (frame, _))) = ok frame

module _ (g : Gzip) where
  -- Decode: `readable` is in.ReadableLen(), `input` what in.ReadBinary gives.
  unfoldable pub decode_rpc :
      MessageData → Bool → ℕ → Result String Bytes → Result CodecError Decoded
  unfolding decode_whole
  decode_rpc target has_tags readable input = if readable == 0 then err empty_input else (do
    buf ← map_err read_failed input
    frame ← decode_whole (decode buf)
    body ← map_err body_failed (decode_frame_body g (some frame))
    my_msg ← map_err message_failed (decode_message body)
    let tags : Tags = record {
      command = my_msg.command;
      request_id = my_msg.request_id;
      flags = frame.flags;
    }
    ok (record {
      content = store_payload target my_msg.payload;
      payload_len = length my_msg.payload;
      tags = if has_tags then some tags else none;
    }))
