-- ===== src/Protocol/Frame.antt =====
-- protocol/frame.go: the 8-byte header, Decode on a buffer that may hold less than a frame, Encode.
pub mod Stream
pub mod RoundTrip
use novagate.Base.{
  ℕ, ◌+◌, ◌*◌, ◌<◌, Bool, not, Option, none, some, List, [], ◌∷◌, ◌++◌, Result, ok, err, ltb, ◌==◌,
  length, if◌then◌else◌,
}
use novagate.Protocol.Bytes.{Bytes, byte_at, slice, uint16, uint32, put_uint16, put_uint32}

abbrev pub frame_magic : ℕ
frame_magic = 0xCAFE

abbrev pub frame_version : ℕ
frame_version = 1

abbrev pub frame_header_len : ℕ
frame_header_len = 8

abbrev pub max_frame_body : ℕ
max_frame_body = 1024 * 1024

-- 1 << 0, 1 << 1 and 1 << 2
abbrev pub flag_compressed : ℕ
flag_compressed = 1

abbrev pub flag_encrypted : ℕ
flag_encrypted = 2

abbrev pub flag_one_way : ℕ
flag_one_way = 4

pub record Frame : Type 0 where
  pub version : ℕ
  pub flags : ℕ
  pub body : Bytes

pub data FrameError : Type 0 where
  invalid_magic : ℕ → FrameError
  unsupported_version : ℕ → FrameError
  frame_too_large : FrameError

-- `ok none` is Go's (nil, 0, nil): the buffer does not hold a whole frame yet.
unfoldable pub decode : Bytes → Result FrameError (Option (Frame × ℕ))
decode buf =
    if ltb (length buf) frame_header_len
    then ok none
    else (let magic = uint16 buf 0 in
        if not (magic == frame_magic)
        then err (invalid_magic magic)
        else (let version = byte_at buf 2 in
            if not (version == frame_version)
            then err (unsupported_version version)
            else (let flags = byte_at buf 3 in
                let len = uint32 buf 4 in
                if ltb max_frame_body len
                then err frame_too_large
                else (let total_len = len + frame_header_len in
                    if ltb (length buf) total_len
                    then ok none
                    else ok (
                        some (
                          record {
                            version = version;
                            flags = flags;
                            body = slice buf frame_header_len total_len;
                          },
                          total_len,
                        ))))))

-- `none` is the panic on a body above the limit. The version 0 means the current one.
unfoldable pub encode : Frame → Option Bytes
encode f =
    let body_len = length f.body in
    if ltb max_frame_body body_len
    then none
    else (let version = if f.version == 0 then frame_version else f.version in
        some (put_uint16 frame_magic ++ (version ∷ f.flags ∷ put_uint32 body_len) ++ f.body))
