-- ===== src/Protocol/Tests.antt =====
-- protocol/: its operations on small inputs.
use novagate.Base.{
  ℕ, ◌==◌, if◌then◌else◌, ◌<◌, ◌≡◌, refl, inl, true, false, Option, none, some, [], ◌∷◌, ◌++◌, ok,
  err, length, take, arith, ◌↔◌,
}
use novagate.Base.Key.{get, put, nat_key, bytes_key}
use novagate.Protocol.Bytes.{Bytes, slice}
use novagate.Protocol.Frame.{Frame, decode, encode, frame_too_large, invalid_magic}
use novagate.Protocol.Frame.RoundTrip.{decode-encode, encode-decode, decode_waits}
use novagate.Protocol.Message.{Message, decode_message, message_too_short, decode_message-short}
use novagate.Protocol.Compress.{Gzip, Stream, encode_frame_body, decode_frame_body}
use novagate.Protocol.Compress.RoundTrip.{IsFaithful, decode_frame_body-encode_frame_body}
use novagate.Protocol.Mapper.{
  Mapping, no_mappings, register_full_method_command, bind, last_index_byte, split_full_method,
  trim_space,
}
use novagate.Protocol.Mapper.Consistent.{register_all, command_injective}

abbrev three_bytes : Frame
three_bytes = record { version = 0; flags = 0; body = 1 ∷ 2 ∷ 3 ∷ [] }

abbrev three_bytes_read : Frame
three_bytes_read = record { version = 1; flags = 0; body = 1 ∷ 2 ∷ 3 ∷ [] }

abbrev three_bytes_header : Bytes
three_bytes_header = 0xCA ∷ 0xFE ∷ 1 ∷ 0 ∷ 0 ∷ 0 ∷ 0 ∷ 3 ∷ []

abbrev three_bytes_wire : Bytes
three_bytes_wire = three_bytes_header ++ (1 ∷ 2 ∷ 3 ∷ [])

encode-three_bytes : encode three_bytes ≡ some three_bytes_wire
unfolding encode
encode-three_bytes = refl

decode-three_bytes : decode three_bytes_wire ≡ ok (some (three_bytes_read, 11))
unfolding decode slice
decode-three_bytes = refl

decode_other_magic : decode (0xCA ∷ 0xFF ∷ 1 ∷ 0 ∷ 0 ∷ 0 ∷ 0 ∷ 0 ∷ []) ≡ err (invalid_magic 0xCAFF)
unfolding decode
decode_other_magic = refl

decode_too_large : decode (0xCA ∷ 0xFE ∷ 1 ∷ 0 ∷ 0 ∷ 0x10 ∷ 0 ∷ 1 ∷ []) ≡ err frame_too_large
unfolding decode
decode_too_large = refl

decode-encode_example : decode (three_bytes_wire ++ (9 ∷ [])) ≡ ok (some (three_bytes_read, 11))
decode-encode_example =
    decode-encode three_bytes three_bytes_wire (9 ∷ []) (inl refl) encode-three_bytes

encode-decode_example : encode three_bytes_read ≡ some (take 11 three_bytes_wire)
encode-decode_example = encode-decode three_bytes_wire (omega arith) decode-three_bytes

decode_waits_example : decode (three_bytes_header ++ (1 ∷ [])) ≡ ok none
decode_waits_example =
    decode_waits three_bytes three_bytes_wire (three_bytes_header ++ (1 ∷ [])) (3 ∷ []) 2 (inl refl)
      encode-three_bytes refl

abbrev login : Message
login = record { command = 0x0101; request_id = 77; payload = 5 ∷ [] }

abbrev login_wire : Bytes
login_wire = 1 ∷ 1 ∷ 0 ∷ 0 ∷ 0 ∷ 0 ∷ 0 ∷ 0 ∷ 0 ∷ 77 ∷ 5 ∷ []

decode_message-login : decode_message login_wire ≡ ok login
unfolding decode_message
decode_message-login = refl

decode_message-short_example :
    (decode_message (1 ∷ 2 ∷ []) ≡ err message_too_short) ↔ (length {A = ℕ} (1 ∷ 2 ∷ []) < 10)
decode_message-short_example = decode_message-short (1 ∷ 2 ∷ [])

-- A format that only marks its data, in place of gzip.
abbrev open_marked : Bytes → Option Stream
open_marked [] = none
open_marked (b ∷ body) = if b == 31 then some (record { output = body; intact = true }) else none

abbrev pub marked : Gzip
marked = record { compress = λ body. some (31 ∷ body); open_reader = open_marked }

pub marked-IsFaithful : IsFaithful marked
marked-IsFaithful = record { reads_back = λ body out e. ground arith }

abbrev zipped_frame : Frame
zipped_frame = record { version = 1; flags = 1; body = 31 ∷ 8 ∷ [] }

encode-zipped : encode_frame_body marked 1 (8 ∷ []) ≡ ok (1, 31 ∷ 8 ∷ [])
unfolding encode_frame_body
encode-zipped = refl

decode-zipped : decode_frame_body marked (some zipped_frame) ≡ ok (8 ∷ [])
unfolding decode_frame_body
decode-zipped = refl

decode_frame_body-encode_frame_body_example :
    (◌≡◌ {A = ℕ} 1 1) × (decode_frame_body marked (some zipped_frame) ≡ ok (8 ∷ []))
decode_frame_body-encode_frame_body_example =
    decode_frame_body-encode_frame_body marked 1 1 (8 ∷ []) (31 ∷ 8 ∷ []) marked-IsFaithful
      (omega arith) encode-zipped

-- "a.b" and "a. b"
abbrev plain_name : Bytes
plain_name = b'a' ∷ b'.' ∷ b'b' ∷ []

abbrev spaced_name : Bytes
spaced_name = b'a' ∷ b'.' ∷ b' ' ∷ b'b' ∷ []

abbrev bound : Bytes → Mapping
bound name = record {
  method_command = (name, 7) ∷ [];
  command_method = (7, name) ∷ [];
  strict_mapping = false;
}

register-plain : register_full_method_command no_mappings plain_name 7 ≡ ok (bound plain_name)
unfolding register_full_method_command trim_space split_full_method last_index_byte bind get put
register-plain = refl

register_all-plain : register_all no_mappings ((plain_name, 7) ∷ []) ≡ ok (bound plain_name)
unfolding register_all
register_all-plain = rw register-plain

command_injective_example : plain_name ≡ plain_name
command_injective_example =
    command_injective (bound plain_name) ((plain_name, 7) ∷ []) plain_name plain_name 7
      register_all-plain (unfold get in refl) (unfold get in refl)
