-- ===== src/Common/HeadHeader/Tests.antt =====
-- modules/common/head_header.rs: the header of a head with 2000 features, three classes and five bytes.
use al.Prelude.{
  ℕ, ◌≡◌, ◌↔◌, ◌<◌, refl, false, List, [], ◌∷◌, ◌++◌, leb, any, All, arith, Bool-cases, inl, inr,
}
use al.Framing.{to_le_bytes}
use al.Common.HeadHeader.{
  HeadHeader, crc32_rounds, crc32_table, crc32_from, crc32_ieee, header_fields, serialize_header,
  ok, parse_header, artifact, write_with_payload, opened, open_artifact,
}
use al.Common.HeadHeader.Fields.{IsHeader, parse_header-IsHeader}
use al.Common.HeadHeader.Artifacts.{open_artifact-write_with_payload}

abbrev bytes : List ℕ
bytes =
    65 ∷ 67 ∷ 83 ∷ 84 ∷ 72 ∷ 69 ∷ 65 ∷ 68 ∷ 1 ∷ 0 ∷ 0 ∷ 0 ∷ 208 ∷ 7 ∷ 0 ∷ 0 ∷ 3 ∷ 0 ∷ 0 ∷ 0 ∷ 0 ∷ 0
    ∷ 0 ∷ 0 ∷ 5 ∷ 0 ∷ 0 ∷ 0 ∷ 146 ∷ 197 ∷ 29 ∷ 2 ∷ []

abbrev header : HeadHeader
header = record { header_version = 1; feature_dim = 2000; num_classes = 3; payload_len = 5 }

abbrev payload : List ℕ
payload = 7 ∷ 8 ∷ 9 ∷ 10 ∷ 11 ∷ []

any-false : (bs : List ℕ) → any (leb 256) bs ≡ false → All (λ b. b < 256) bs
any-false [] e = tt
any-false (b ∷ bs) e = elim (Bool-cases (leb 256 b)) [
  | inl big ↦ let clash = rw big at e in cc
  | inr small ↦ (ground arith, any-false bs (rw small at e))
]

-- The checksum is the one of other programs.
written : write_with_payload 2000 3 payload ≡ artifact (bytes ++ payload)
unfolding write_with_payload serialize_header header_fields crc32_ieee crc32_from crc32_table
    crc32_rounds to_le_bytes
written = refl

parse_header-IsHeader_example : (parse_header bytes ≡ ok header) ↔ IsHeader header bytes
parse_header-IsHeader_example = parse_header-IsHeader header bytes (any-false bytes refl)

open_artifact-write_with_payload_example :
    open_artifact 2000 (bytes ++ payload) ≡ opened header payload
open_artifact-write_with_payload_example =
    open_artifact-write_with_payload 2000 3 payload (bytes ++ payload) (omega arith) (omega arith)
      written
