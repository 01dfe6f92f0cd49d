-- ===== src/Framing.antt =====
-- modules/proto/framing.rs, modules/stream_io/framing.rs: length-prefixed frames and their envelopes.
pub mod RoundTrip
pub mod Envelopes
mod Tests
use al.Prelude.{
  ℕ, ◌+◌, ◌*◌, ◌/◌, ◌%◌, ◌^◌, Bool, Option, none, some, List, [], ◌∷◌, ◌++◌, leb, ltb,
  if◌then◌else◌, length, get_or, take, drop,
}

abbrev pub max_uds_frame_bytes : ℕ
max_uds_frame_bytes = 64 * 1024

-- `FramingEncodeError`
pub data FramingEncodeError : Type 0 where
  payload_too_large : ℕ → ℕ → FramingEncodeError

-- `u32::to_le_bytes`
unfoldable pub to_le_bytes : ℕ → List ℕ
to_le_bytes n = n % 256 ∷ n / 256 % 256 ∷ n / 65536 % 256 ∷ n / 16777216 % 256 ∷ []

-- `u32::from_le_bytes`
unfoldable pub from_le_bytes : List ℕ → ℕ
from_le_bytes bs =
    get_or bs 0 0 + 256 * get_or bs 1 0 + 65536 * get_or bs 2 0 + 16777216 * get_or bs 3 0

pub data Encoded : Type 0 where
  frame : List ℕ → Encoded
  error : FramingEncodeError → Encoded

unfoldable pub try_encode_length_prefixed : List ℕ → Encoded
try_encode_length_prefixed payload =
    if ltb max_uds_frame_bytes (length payload)
    then error (payload_too_large (length payload) max_uds_frame_bytes)
    else frame (to_le_bytes (length payload % 2 ^ 32) ++ payload)

-- What a reader meets after its last byte: the end of the stream or another I/O error.
pub data Ending : Type 0 where
  unexpected_eof : Ending
  failure : Ending

pub record Reader : Type 0 where
  pub bytes : List ℕ
  pub ending : Ending

pub data FramingError : Type 0 where
  oversized_prefix : ℕ → ℕ → FramingError
  truncated : ℕ → FramingError
  io : Ending → FramingError

pub data Read : Type 0 where
  filled : List ℕ → Reader → Read
  failed : Ending → Read

-- `read_exact` into a buffer of `n` bytes
unfoldable pub read_exact : ℕ → Reader → Read
read_exact n r =
    if leb n (length r.bytes)
    then filled (take n r.bytes) (record r { bytes = drop n r.bytes })
    else failed r.ending

pub data Decoded : Type 0 where
  payload : List ℕ → Reader → Decoded
  error : FramingError → Decoded

unfoldable pub read_payload : ℕ → Read → Decoded
read_payload len (filled bytes r) = payload bytes r
read_payload len (failed unexpected_eof) = error (truncated len)
read_payload len (failed failure) = error (io failure)

unfoldable pub read_prefix : Read → Decoded
read_prefix (failed e) = error (io e)
read_prefix (filled len_buf r) =
    let len = from_le_bytes len_buf in
    if ltb max_uds_frame_bytes len
    then error (oversized_prefix len max_uds_frame_bytes)
    else read_payload len (read_exact len r)

-- `decode_length_prefixed`
unfoldable pub decode_length_prefixed : Reader → Decoded
decode_length_prefixed r = read_prefix (read_exact 4 r)
