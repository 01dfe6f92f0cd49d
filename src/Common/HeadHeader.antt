-- ===== src/Common/HeadHeader.antt =====
-- modules/common/head_header.rs: the header of a head artifact, and the part of
-- modules/inference/head.rs that reads it.
pub mod Fields
pub mod Artifacts
mod Tests
use al.Prelude.{
  ℕ, zero, suc, ◌+◌, ◌-◌, ◌/◌, ◌^◌, Bool, true, false, ◌&&◌, not, List, [], ◌∷◌, ◌++◌, ◌==◌, ltb,
  leb, if◌then◌else◌, length, take, drop,
}
use Prim.Native.Nat.{bit_and, bit_xor}
use al.Prelude.Utf8.{ascii}
use al.Framing.{to_le_bytes, from_le_bytes}
use al.Prelude.Texts.{same_text}

abbrev pub head_magic : List ℕ
head_magic = ascii "ACSTHEAD"

abbrev pub head_header_version : ℕ
head_header_version = 1

abbrev pub head_header_size : ℕ
head_header_size = 32

pub record HeadHeader : Type 0 where
  pub header_version : ℕ
  pub feature_dim : ℕ
  pub num_classes : ℕ
  pub payload_len : ℕ

pub data HeadHeaderError : Type 0 where
  too_short : (got : ℕ) → HeadHeaderError
  bad_magic : (got : List ℕ) → HeadHeaderError
  schema_too_new : (found : ℕ) → HeadHeaderError
  bad_crc : (stored computed : ℕ) → HeadHeaderError

-- The inner loop of `CRC32_TABLE`.
unfoldable pub crc32_rounds : ℕ → ℕ → ℕ
crc32_rounds zero c = c
crc32_rounds (suc k) c =
    crc32_rounds k (if not (bit_and c 1 == 0) then bit_xor 0xEDB88320 (c / 2) else c / 2)

-- An entry of `CRC32_TABLE`.
unfoldable pub crc32_table : ℕ → ℕ
unfolding crc32_rounds
crc32_table i = crc32_rounds 8 i

unfoldable pub crc32_from : ℕ → List ℕ → ℕ
unfolding crc32_table
crc32_from crc [] = crc
crc32_from crc (b ∷ bs) =
    crc32_from (bit_xor (crc32_table (bit_and (bit_xor crc b) 0xFF)) (crc / 256)) bs

unfoldable pub crc32_ieee : List ℕ → ℕ
unfolding crc32_from
crc32_ieee bytes = bit_xor (crc32_from 0xFFFFFFFF bytes) 0xFFFFFFFF

-- The first 28 bytes.
unfoldable pub header_fields : ℕ → ℕ → ℕ → List ℕ
header_fields feature_dim num_classes payload_len =
    head_magic
    ++ to_le_bytes head_header_version
    ++ to_le_bytes feature_dim
    ++ to_le_bytes num_classes
    ++ (0 ∷ 0 ∷ 0 ∷ 0 ∷ [])
    ++ to_le_bytes payload_len

unfoldable pub serialize_header : ℕ → ℕ → ℕ → List ℕ
unfolding header_fields crc32_ieee
serialize_header feature_dim num_classes payload_len =
    let buf = header_fields feature_dim num_classes payload_len in
    buf ++ to_le_bytes (crc32_ieee buf)

pub data ParsedHeader : Type 0 where
  ok : HeadHeader → ParsedHeader
  error : HeadHeaderError → ParsedHeader

-- The tests and the fields, of the slices of a header and the computed checksum.
unfoldable pub parse_fields :
    (magic version dim classes len stored : List ℕ) (computed : ℕ) → ParsedHeader
unfolding same_text
parse_fields magic version dim classes len stored computed =
    if not (same_text magic head_magic)
    then error (bad_magic magic)
    else if ltb head_header_version (from_le_bytes version)
    then error (schema_too_new (from_le_bytes version))
    else if not (from_le_bytes stored == computed)
    then error (bad_crc (from_le_bytes stored) computed)
    else ok (record {
      header_version = from_le_bytes version;
      feature_dim = from_le_bytes dim;
      num_classes = from_le_bytes classes;
      payload_len = from_le_bytes len;
    })

unfoldable pub slice : ℕ → ℕ → List ℕ → List ℕ
slice start n bytes = take n (drop start bytes)

unfoldable pub parse_header : List ℕ → ParsedHeader
unfolding parse_fields slice crc32_ieee
parse_header bytes =
    if ltb (length bytes) head_header_size
    then error (too_short (length bytes))
    else parse_fields (take 8 bytes) (slice 8 4 bytes) (slice 12 4 bytes) (slice 16 4 bytes)
        (slice 24 4 bytes) (slice 28 4 bytes) (crc32_ieee (take 28 bytes))

pub data Written : Type 0 where
  artifact : List ℕ → Written
  invalid_input : (len : ℕ) → Written

-- `write_with_payload` to a writer that takes everything.
unfoldable pub write_with_payload : ℕ → ℕ → List ℕ → Written
unfolding serialize_header
write_with_payload feature_dim num_classes payload =
    if leb (2 ^ 32) (length payload)
    then invalid_input (length payload)
    else artifact (serialize_header feature_dim num_classes (length payload) ++ payload)

pub data HeadError : Type 0 where
  schema_too_old : HeadError
  header_feature_dim_mismatch : (got : ℕ) → HeadError
  header_corrupt : HeadHeaderError → HeadError
  payload_len_mismatch : (recorded found : ℕ) → HeadError

pub data Opened : Type 0 where
  opened : HeadHeader → List ℕ → Opened
  refused : HeadError → Opened

unfoldable pub header_refused : HeadHeaderError → HeadError
header_refused (too_short got) = header_corrupt (too_short got)
header_refused (bad_magic got) = schema_too_old
header_refused (schema_too_new found) = header_corrupt (schema_too_new found)
header_refused (bad_crc stored computed) = header_corrupt (bad_crc stored computed)

unfoldable pub open_parsed : ℕ → List ℕ → ParsedHeader → Opened
unfolding header_refused
open_parsed feature_dim bytes (error e) = refused (header_refused e)
open_parsed feature_dim bytes (ok header) =
    if not (header.feature_dim == feature_dim)
    then refused (header_feature_dim_mismatch header.feature_dim)
    else if not (length bytes - head_header_size == header.payload_len)
    then refused (payload_len_mismatch header.payload_len (length bytes - head_header_size))
    else opened header (drop head_header_size bytes)

-- `load_inner` up to the payload, for a backbone of so many features.
unfoldable pub open_artifact : ℕ → List ℕ → Opened
unfolding open_parsed parse_header
open_artifact feature_dim bytes =
    if ltb (length bytes) head_header_size
    then refused schema_too_old
    else open_parsed feature_dim bytes (parse_header (take head_header_size bytes))
