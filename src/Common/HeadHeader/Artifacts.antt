-- ===== src/Common/HeadHeader/Artifacts.antt =====
-- modules/common/head_header.rs, modules/inference/head.rs: an artifact that is written can be opened.
use al.Prelude.{
  ℕ, ◌+◌, ◌-◌, ◌^◌, ◌≤◌, ◌<◌, ◌≡◌, refl, ◌∙◌, ap, subst, true, false, List, [], ◌++◌, ◌==◌, ltb,
  leb, length, take, drop, arith, Bool-cases, inl, inr,
}
use al.Framing.{to_le_bytes}
use al.Common.HeadHeader.{
  head_header_size, HeadHeader, header_fields, serialize_header, ok, parse_header, artifact,
  write_with_payload, opened, open_parsed, open_artifact,
}
use al.Common.HeadHeader.Fields.{checked, laid_out, IsHeader-parse_header}

abbrev new_header : ℕ → ℕ → ℕ → HeadHeader
new_header d c p = record { header_version = 1; feature_dim = d; num_classes = c; payload_len = p }

parse-serialize :
    (d c p : ℕ)
    → d < 2 ^ 32
    → c < 2 ^ 32
    → p < 2 ^ 32
    → parse_header (serialize_header d c p) ≡ ok (new_header d c p)
unfolding serialize_header header_fields laid_out checked to_le_bytes
parse-serialize d c p hd hc hp =
    IsHeader-parse_header (new_header d c p) (serialize_header d c p) (record {
      version = omega arith;
      dim = hd;
      classes = hc;
      len = hp;
      reserved = (0, 0, 0, 0);
      rest = [];
      shape = refl;
    })

header-splits :
    (d c p : ℕ) (payload : List ℕ)
    → (take 32 (serialize_header d c p ++ payload) ≡ serialize_header d c p)
      × (drop 32 (serialize_header d c p ++ payload) ≡ payload)
      × (length (serialize_header d c p ++ payload) ≡ 32 + length payload)
unfolding serialize_header header_fields to_le_bytes
header-splits d c p payload = (refl, refl, omega arith)

open_parsed-ok :
    (h : HeadHeader) (bytes : List ℕ)
    → (length bytes - 32 ≡ h.payload_len)
    → open_parsed h.feature_dim bytes (ok h) ≡ opened h (drop 32 bytes)
unfolding open_parsed
open_parsed-ok h bytes e =
    let same_dim : (h.feature_dim == h.feature_dim) ≡ true = ground arith in
    let same_len : (length bytes - head_header_size == h.payload_len) ≡ true = ground arith in
    rw (same_dim, same_len) refl

enough_lem : (n : ℕ) → 32 ≤ n → ltb n head_header_size ≡ false
enough_lem n le = ground arith

open_artifact-ok :
    (h : HeadHeader) (file : List ℕ)
    → 32 ≤ length file
    → parse_header (take 32 file) ≡ ok h
    → length file - 32 ≡ h.payload_len
    → open_artifact h.feature_dim file ≡ opened h (drop 32 file)
unfolding open_artifact
open_artifact-ok h file le parsed len =
    rw (enough_lem (length file) le, parsed) (open_parsed-ok h file len)

open_artifact-serialize :
    (d c : ℕ) (payload : List ℕ)
    → d < 2 ^ 32
    → c < 2 ^ 32
    → length payload < 2 ^ 32
    → open_artifact d (serialize_header d c (length payload) ++ payload)
      ≡ opened (new_header d c (length payload)) payload
open_artifact-serialize d c payload hd hc hp =
    let (front, back, len) = header-splits d c (length payload) payload in
    open_artifact-ok (new_header d c (length payload))
      (serialize_header d c (length payload) ++ payload) (omega (arith, len))
      (ap parse_header front ∙ parse-serialize d c (length payload) hd hc hp) (omega (arith, len))
    ∙ ap (opened (new_header d c (length payload))) back

-- An artifact that is written is opened by an inference of the same feature count: the fields are
-- those that were written, and the payload is the whole of what was. The fields must fit 32 bits.
pub open_artifact-write_with_payload :
    (feature_dim num_classes : ℕ) (payload file : List ℕ)
    → feature_dim < 2 ^ 32
    → num_classes < 2 ^ 32
    → write_with_payload feature_dim num_classes payload ≡ artifact file
    → open_artifact feature_dim file
      ≡ opened
          (record {
            header_version = 1;
            feature_dim = feature_dim;
            num_classes = num_classes;
            payload_len = length payload;
          })
          payload
unfolding write_with_payload
open_artifact-write_with_payload d c payload file hd hc e =
    elim (Bool-cases (leb (2 ^ 32) (length payload))) [
      | inl big ↦ let clash = rw big at e in cc
      | inr fits ↦
          let made = rw fits at e in
          let written : serialize_header d c (length payload) ++ payload ≡ file = cc in
          subst (λ f. open_artifact d f ≡ opened (new_header d c (length payload)) payload) written
            (open_artifact-serialize d c payload hd hc (ground arith))
    ]
