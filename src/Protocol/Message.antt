-- ===== src/Protocol/Message.antt =====
-- protocol/message.go: a command, a request id and a payload, behind a 10-byte header.
use novagate.Base.{
  ℕ, ◌+◌, ◌<◌, ◌^◌, ◌≡◌, ◌↔◌, All, arith, ◌∷◌, ◌++◌, Result, ok, err, ltb, length, drop,
  if◌then◌else◌,
}
use novagate.Protocol.Bytes.{Bytes, IsByte, uint16, uint64, put_uint16, put_uint64}

abbrev pub message_header_len : ℕ
message_header_len = 2 + 8

pub record Message : Type 0 where
  pub command : ℕ
  pub request_id : ℕ
  pub payload : Bytes

pub data MessageError : Type 0 where
  message_too_short : MessageError

-- EncodeMessage returns no error.
unfoldable pub encode_message : Message → Bytes
encode_message m = put_uint16 m.command ++ put_uint64 m.request_id ++ m.payload

unfoldable pub decode_message : Bytes → Result MessageError Message
decode_message buf =
    if ltb (length buf) message_header_len
    then err message_too_short
    else ok (record {
      command = uint16 buf 0;
      request_id = uint64 buf 2;
      payload = drop message_header_len buf;
    })

-- Encoded and read back.
pub decode_message-encode_message :
    (m : Message)
    → m.command < 2 ^ 16
    → m.request_id < 2 ^ 64
    → decode_message (encode_message m) ≡ ok m
unfolding decode_message encode_message
decode_message-encode_message m hc hr = ground arith

-- Read and encoded again.
encode_message-decode_message :
    (buf : Bytes) {m : Message}
    → All IsByte buf
    → decode_message buf ≡ ok m
    → encode_message m ≡ buf
unfolding decode_message encode_message
encode_message-decode_message (b0 ∷ b1 ∷ b2 ∷ b3 ∷ b4 ∷ b5 ∷ b6 ∷ b7 ∷ b8 ∷ b9 ∷ rest) h e =
    ground arith
encode_message-decode_message buf h e = ground arith

-- DecodeMessage reads a message out of a buffer exactly where the buffer is what EncodeMessage writes
-- for it, if the command fits 16 bits and the request id fits 64 bits.
decode_message_iff :
    (buf : Bytes) (m : Message)
    → All IsByte buf
    → m.command < 2 ^ 16
    → m.request_id < 2 ^ 64
    → (decode_message buf ≡ ok m) ↔ (encode_message m ≡ buf)
decode_message_iff buf m bytes hc hr = (
  λ e. encode_message-decode_message buf bytes e,
  λ e. rw (← e) (decode_message-encode_message m hc hr),
)

-- DecodeMessage fails exactly on fewer bytes than the header's ten.
pub decode_message-short :
    (buf : Bytes) → (decode_message buf ≡ err message_too_short) ↔ (length buf < 10)
unfolding decode_message
decode_message-short buf = ground arith
