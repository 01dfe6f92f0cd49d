-- ===== src/Common/Ids/Accepts.antt =====
-- modules/common/ids.rs: which identifiers are accepted.
use al.Prelude.{
  ℕ, zero, suc, ◌+◌, ◌≤◌, ◌<◌, ◌≡◌, ◌↔◌, refl, sym, subst, Bool, true, Option, none, some, List, [],
  ◌∷◌, arith, Bool-cases, inl, inr, ◌==◌, length, get_or, All, ◌⊎◌, ◌≢◌, ℕ_discrete,
}
use al.Common.Bytes.{dot, is_allowed_component_byte}
use al.Common.AssetPath.{starts_with_dot}
use al.Common.AssetPath.Accepts.{IsComponent}
use al.Common.Ids.{
  IdError, mic_id_max, is_dash_position, is_uuid_byte, bad_byte_from, or_next, is_variant_byte,
  version_error, validate_uuid_v4_str, parse_asset_id, parse_mic_id, is_printable, bad_char,
  asset_id, mic_id, bad_uuid_byte,
}

module _ (ok : ℕ → ℕ → Bool) (error : ℕ → ℕ → IdError) where
  -- The loop finds no bad byte just when every byte passes its position's test.
  bad_byte_from-none :
      (i : ℕ) (bs : List ℕ)
      → (bad_byte_from ok error i bs ≡ none)
        ↔ ((j : ℕ) → j < length bs → ok (i + j) (get_or bs j 0) ≡ true)
  unfolding bad_byte_from
  bad_byte_from-none i [] = ((λ h j lt. absurd (omega arith)), λ h. refl)
  bad_byte_from-none i (b ∷ bs) =
      let rest = bad_byte_from-none (suc i) bs in
      let here : i + 0 ≡ i = omega arith in
      let next : (j : ℕ) → suc i + j ≡ i + suc j = λ j. omega arith in
      elim (Bool-cases (ok i b)) [
        | inl t ↦ rw t (
          (λ h j. elim j as (λ k. k < suc (length bs) → ok (i + k) (get_or (b ∷ bs) k 0) ≡ true) [
            | zero ↦ λ lt. rw here t
            | suc k ↦
                λ lt. subst (λ n. ok n (get_or bs k 0) ≡ true) (next k) (rest.0 h k (omega arith))
          ]),
          λ h. rest.1 (λ j lt.
              subst (λ k. ok k (get_or bs j 0) ≡ true) (sym (next j)) (h (suc j) (omega arith))),
        )
        | inr t ↦ rw t ((λ h. cc), λ h. let passes = rw here at (h 0 (omega arith)) in cc)
      ]

  bytes-none :
      (bs : List ℕ)
      → (bad_byte_from ok error 0 bs ≡ none)
        ↔ ((j : ℕ) → j < length bs → ok j (get_or bs j 0) ≡ true)
  bytes-none bs =
      let start : (j : ℕ) → 0 + j ≡ j = λ j. omega arith in
      let every = bad_byte_from-none 0 bs in
      (
        (λ h j lt. subst (λ k. ok k (get_or bs j 0) ≡ true) (start j) (every.0 h j lt)),
        λ h. every.1 (λ j lt. subst (λ k. ok k (get_or bs j 0) ≡ true) (sym (start j)) (h j lt)),
      )

All-get_or :
    (P : ℕ → Type 0) (xs : List ℕ) → All P xs ↔ ((j : ℕ) → j < length xs → P (get_or xs j 0))
All-get_or P [] = ((λ h j lt. absurd (omega arith)), λ h. tt)
All-get_or P (x ∷ xs) =
    let rest = All-get_or P xs in
    (
      (λ h j. elim j as (λ k. k < suc (length xs) → P (get_or (x ∷ xs) k 0)) [
        | zero ↦ λ lt. h.0
        | suc k ↦ λ lt. rest.0 h.1 k (omega arith)
      ]),
      λ h. (h 0 (omega arith), rest.1 (λ j lt. h (suc j) (omega arith))),
    )

starts_with_dot-get_or : (s : List ℕ) → starts_with_dot s ≡ (get_or s 0 0 == dot)
unfolding starts_with_dot
starts_with_dot-get_or [] = refl
starts_with_dot-get_or (b ∷ bs) = refl

-- `AssetId::parse` accepts exactly the components that `AssetPath::parse` accepts.
pub parse_asset_id-IsComponent : (s : List ℕ) → (parse_asset_id s ≡ none) ↔ IsComponent s
unfolding parse_asset_id
parse_asset_id-IsComponent s =
    let loop = bytes-none (λ i b. is_allowed_component_byte b) (bad_char asset_id) s in
    let every = All-get_or (λ b. is_allowed_component_byte b ≡ true) s in
    let dotted = starts_with_dot-get_or s in
    (
      (λ h. record {
        present = ground arith;
        short = ground arith;
        visible = ground arith;
        allowed = every.1 (loop.0 (ground arith));
      }),
      λ c.
          let present = c.present in
          let short = c.short in
          let visible = c.visible in let fine = loop.1 (every.0 c.allowed) in ground arith,
    )

-- `0` to `9` or `a` to `f`
pub IsLowerHex : ℕ → Type 0
IsLowerHex b = ((48 ≤ b) × (b ≤ 57)) ⊎ ((97 ≤ b) × (b ≤ 102))

pub record IsUuidV4 (s : List ℕ) : Type 0 where
  pub full : length s ≡ 36
  pub dashes :
      (get_or s 8 0 ≡ 45) × (get_or s 13 0 ≡ 45) × (get_or s 18 0 ≡ 45) × (get_or s 23 0 ≡ 45)
  pub digits : (j : ℕ) → j < 36 → j ≢ 8 → j ≢ 13 → j ≢ 18 → j ≢ 23 → IsLowerHex (get_or s j 0)
  pub version : get_or s 14 0 ≡ 52
  pub variant :
      (get_or s 19 0 ≡ 56) ⊎ ((get_or s 19 0 ≡ 57) ⊎ ((get_or s 19 0 ≡ 97) ⊎ (get_or s 19 0 ≡ 98)))

is_uuid_byte-digit :
    (j b : ℕ) → j ≢ 8 → j ≢ 13 → j ≢ 18 → j ≢ 23 → (is_uuid_byte j b ≡ true) ↔ IsLowerHex b
unfolding is_uuid_byte is_dash_position IsLowerHex
is_uuid_byte-digit j b n8 n13 n18 n23 = ((λ h. ground arith), λ h. ground arith)

is_uuid_byte-dash : (j b : ℕ) → is_dash_position j ≡ true → (is_uuid_byte j b ≡ true) ↔ (b ≡ 45)
unfolding is_uuid_byte
is_uuid_byte-dash j b e = ((λ h. ground arith), λ h. ground arith)

is_variant_byte-cases :
    (b : ℕ) → (is_variant_byte b ≡ true) ↔ ((b ≡ 56) ⊎ ((b ≡ 57) ⊎ ((b ≡ 97) ⊎ (b ≡ 98))))
unfolding is_variant_byte
is_variant_byte-cases b = ((λ h. ground arith), λ h. ground arith)

or_next-none : (a b : Option IdError) → (or_next a b ≡ none) ↔ ((a ≡ none) × (b ≡ none))
unfolding or_next
or_next-none none b = ((λ h. (refl, h)), λ h. h.1)
or_next-none (some e) b = ((λ h. cc), λ h. cc)

version_error-none :
    (s : List ℕ)
    → (version_error s ≡ none) ↔ ((get_or s 14 0 ≡ 52) × (is_variant_byte (get_or s 19 0) ≡ true))
unfolding version_error
version_error-none s = (
  (λ h. (ground arith, ground arith)),
  λ h. let version = h.0 in let variant = h.1 in ground arith,
)

uuid_bytes : (s : List ℕ) → IsUuidV4 s → (j : ℕ) → j < 36 → is_uuid_byte j (get_or s j 0) ≡ true
unfolding is_dash_position
uuid_bytes s u j lt =
    let dash_at : (k : ℕ)
        → is_dash_position k ≡ true
        → get_or s k 0 ≡ 45
        → j ≡ k
        → is_uuid_byte j (get_or s j 0) ≡ true =
      λ k e d same.
        subst (λ i. is_uuid_byte i (get_or s i 0) ≡ true) (sym same)
          ((is_uuid_byte-dash k (get_or s k 0) e).1 d) in
    elim (ℕ_discrete j 8) [
      | yes same ↦ dash_at 8 refl u.dashes.0 same
      | no n8 ↦ elim (ℕ_discrete j 13) [
        | yes same ↦ dash_at 13 refl u.dashes.1 same
        | no n13 ↦ elim (ℕ_discrete j 18) [
          | yes same ↦ dash_at 18 refl u.dashes.2 same
          | no n18 ↦ elim (ℕ_discrete j 23) [
            | yes same ↦ dash_at 23 refl u.dashes.3 same
            | no n23 ↦
                (is_uuid_byte-digit j (get_or s j 0) n8 n13 n18 n23).1
                  (u.digits j lt n8 n13 n18 n23)
          ]
        ]
      ]
    ]

-- `validate_uuid_v4_str` accepts exactly the strings of 36 bytes that have `-` at 8, 13, 18 and 23
-- and lowercase hex elsewhere, with `4` at 14 and one of `8`, `9`, `a`, `b` at 19.
pub validate_uuid_v4_str-IsUuidV4 : (s : List ℕ) → (validate_uuid_v4_str s ≡ none) ↔ IsUuidV4 s
unfolding validate_uuid_v4_str
validate_uuid_v4_str-IsUuidV4 s =
    let loop = bytes-none is_uuid_byte bad_uuid_byte s in
    let both = or_next-none (bad_byte_from is_uuid_byte bad_uuid_byte 0 s) (version_error s) in
    let nibbles = version_error-none s in
    (
      (λ h.
          let (bytes, version) = both.0 (ground arith) in
          let full : length s ≡ 36 = ground arith in
          let every : (j : ℕ) → j < 36 → is_uuid_byte j (get_or s j 0) ≡ true =
            λ j lt. loop.0 bytes j (omega arith) in
          let dash_at : (j : ℕ) → j < 36 → is_dash_position j ≡ true → get_or s j 0 ≡ 45 =
            λ j lt e. (is_uuid_byte-dash j (get_or s j 0) e).0 (every j lt) in
          record {
            full = full;
            dashes = (
              dash_at 8 (omega arith) (unfold is_dash_position in refl),
              dash_at 13 (omega arith) (unfold is_dash_position in refl),
              dash_at 18 (omega arith) (unfold is_dash_position in refl),
              dash_at 23 (omega arith) (unfold is_dash_position in refl),
            );
            digits = λ j lt n8 n13 n18 n23.
                (is_uuid_byte-digit j (get_or s j 0) n8 n13 n18 n23).0 (every j lt);
            version = (nibbles.0 version).0;
            variant = (is_variant_byte-cases (get_or s 19 0)).0 ((nibbles.0 version).1);
          }),
      λ u.
          let full = u.full in
          let every : (j : ℕ) → j < length s → is_uuid_byte j (get_or s j 0) ≡ true =
            λ j lt. uuid_bytes s u j (omega arith) in
          let fine = both.1 (
            loop.1 every,
            nibbles.1 (u.version, (is_variant_byte-cases (get_or s 19 0)).1 u.variant),
          ) in
          ground arith,
    )

-- A mic id is 1 to 128 printable bytes.
pub record IsMicId (s : List ℕ) : Type 0 where
  pub present : 0 < length s
  pub short : length s ≤ mic_id_max
  pub printable : (j : ℕ) → j < length s → is_printable (get_or s j 0) ≡ true

-- `MicId::parse` accepts exactly the strings of 1 to 128 printable ASCII bytes without a space.
pub parse_mic_id-IsMicId : (s : List ℕ) → (parse_mic_id s ≡ none) ↔ IsMicId s
unfolding parse_mic_id
parse_mic_id-IsMicId s =
    let loop = bytes-none (λ i b. is_printable b) (bad_char mic_id) s in
    (
      (λ h. record {
        present = ground arith;
        short = ground arith;
        printable = loop.0 (ground arith);
      }),
      λ m.
          let present = m.present in
          let short = m.short in let fine = loop.1 m.printable in ground arith,
    )
