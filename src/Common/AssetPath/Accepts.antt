-- ===== src/Common/AssetPath/Accepts.antt =====
-- modules/common/asset_path.rs: which strings are accepted.
use al.Prelude.{
  ℕ, suc, ◌+◌, ◌≤◌, ◌<◌, ◌≡◌, ◌↔◌, refl, sym, ◌∙◌, ap, true, false, Option, none, some, List, [],
  ◌∷◌, arith, Bool-cases, Option-cases, inl, inr, ltb, length, All,
}
use al.Common.Bytes.{is_allowed_component_byte}
use al.Common.AssetPath.{
  AssetPath, AssetPathError, max_total_bytes, max_component_bytes, max_depth, split,
  starts_with_dot, bad_byte_from, component_error, or_next, components_error, ok, parsed, parse,
}
use al.Common.AssetPath.Split.{join, NoSlash, join-split, split-join, split-cons}

pub record IsComponent (c : List ℕ) : Type 0 where
  pub present : 0 < length c
  pub short : length c ≤ max_component_bytes
  pub visible : starts_with_dot c ≡ false
  pub allowed : All (λ b. is_allowed_component_byte b ≡ true) c

-- One to eight components, joined by `/`, of at most 256 bytes in all.
pub record IsAssetPath (s : List ℕ) : Type 0 where
  pub first : List ℕ
  pub others : List (List ℕ)
  pub joins : s ≡ join (first ∷ others)
  pub shallow : length (first ∷ others) ≤ max_depth
  pub components : All IsComponent (first ∷ others)
  pub short : length s ≤ max_total_bytes

bad_byte_from-none :
    (index i : ℕ) (c : List ℕ)
    → (bad_byte_from index i c ≡ none) ↔ All (λ b. is_allowed_component_byte b ≡ true) c
unfolding bad_byte_from
bad_byte_from-none index i [] = ((λ h. tt), λ h. refl)
bad_byte_from-none index i (b ∷ bs) =
    let rest = bad_byte_from-none index (suc i) bs in
    elim (Bool-cases (is_allowed_component_byte b)) [
      | inl t ↦ rw t ((λ h. (refl, rest.0 h)), λ h. rest.1 h.1)
      | inr t ↦ rw t ((λ h. cc), λ h. cc)
    ]

component_error-none : (index : ℕ) (c : List ℕ) → (component_error index c ≡ none) ↔ IsComponent c
unfolding component_error
component_error-none index c =
    let bytes = bad_byte_from-none index 0 c in
    (
      (λ h. record {
        present = ground arith;
        short = ground arith;
        visible = ground arith;
        allowed = bytes.0 (ground arith);
      }),
      λ ok.
          let present = ok.present in
          let short = ok.short in
          let visible = ok.visible in let allowed = bytes.1 ok.allowed in ground arith,
    )

or_next-none : (a b : Option AssetPathError) → (or_next a b ≡ none) ↔ ((a ≡ none) × (b ≡ none))
unfolding or_next
or_next-none none b = ((λ h. (refl, h)), λ h. h.1)
or_next-none (some e) b = ((λ h. cc), λ h. cc)

components_error-none :
    (depth : ℕ) (cs : List (List ℕ))
    → depth ≤ max_depth
    → (components_error depth cs ≡ none) ↔ ((depth + length cs ≤ max_depth) × All IsComponent cs)
unfolding components_error
components_error-none depth [] le = ((λ h. (omega arith, tt)), λ h. refl)
components_error-none depth (c ∷ cs) le =
    let here = component_error-none depth c in
    let rest = components_error-none (suc depth) cs in
    let both = or_next-none (component_error depth c) (components_error (suc depth) cs) in
    elim (Bool-cases (ltb max_depth (suc depth))) [
      | inl deep ↦ rw deep ((λ h. cc), λ h. let few = h.0 in absurd (ground arith))
      | inr fine ↦ rw fine (
          let next : suc depth ≤ max_depth = ground arith in
          (
            (λ h.
                let (few, later) = (rest next).0 ((both.0 h).1) in
                (omega arith, (here.0 ((both.0 h).0), later))),
            λ h. let few = h.0 in both.1 (here.1 h.1.0, (rest next).1 (omega arith, h.1.1)),
          ))
    ]

All-weaken :
    (P Q : List ℕ → Type 0) (xs : List (List ℕ)) → ((x : List ℕ) → P x → Q x) → All P xs → All Q xs
All-weaken P Q [] f h = tt
All-weaken P Q (x ∷ xs) f h = (f x h.0, All-weaken P Q xs f h.1)

allowed-NoSlash : (c : List ℕ) → All (λ b. is_allowed_component_byte b ≡ true) c → NoSlash c
unfolding is_allowed_component_byte
allowed-NoSlash [] h = refl
allowed-NoSlash (b ∷ bs) h = let here = h.0 in let rest = allowed-NoSlash bs h.1 in ground arith

join-present : (c : List ℕ) (cs : List (List ℕ)) → 0 < length c → 0 < length (join (c ∷ cs))
unfolding join
join-present c [] h = h
join-present [] (d ∷ ds) h = absurd (omega arith)
join-present (b ∷ bs) (d ∷ ds) h = omega arith

parse-ok :
    (s : List ℕ) (p : AssetPath)
    → (parse s ≡ ok p) ↔ (
        (p.as_str ≡ s)
        × (0 < length s)
        × (length s ≤ max_total_bytes)
        × (components_error 0 (split s) ≡ none))
unfolding parse parsed
parse-ok s p = elim (Option-cases (components_error 0 (split s))) [
  | inl fine ↦
      rw (fine, parsed)
        (
          (λ h. let same : p.as_str ≡ s = ground arith in (same, ground arith, ground arith, refl)),
          λ h.
              let present = h.1 in
              let short = h.2 in
              let back : ok (record { as_str = s }) ≡ ok p =
                ap (λ x. ok (record { as_str = x })) (sym h.0) in
              ground arith,
        )
  | inr (e, bad) ↦ rw (bad, parsed) ((λ h. absurd (ground arith)), λ h. cc)
]

pub split-IsAssetPath : (s : List ℕ) (path : IsAssetPath s) → split s ≡ path.first ∷ path.others
split-IsAssetPath s path =
    ap split path.joins
    ∙ split-join path.first path.others (
        All-weaken _ _ (path.first ∷ path.others) (λ c ok. allowed-NoSlash c ok.allowed)
          path.components)

-- `parse` accepts exactly the joins of one to eight components of `[A-Za-z0-9._-]`, each of 1 to 255
-- bytes and without a leading dot, of at most 256 bytes in all; and it returns the string as it is.
pub parse-IsAssetPath :
    (s : List ℕ) (p : AssetPath) → (parse s ≡ ok p) ↔ ((p.as_str ≡ s) × IsAssetPath s)
parse-IsAssetPath s p =
    let outcome = parse-ok s p in
    (
      (λ h.
          let (same, present, short, fine) = outcome.0 h in
          let (c, cs, parts) = split-cons s in
          let valid = (components_error-none 0 (c ∷ cs) (omega arith)).0 (rw parts at fine) in
          (
            same,
            record {
              first = c;
              others = cs;
              joins = sym (join-split s) ∙ ap join parts;
              shallow = omega (arith, valid.0);
              components = valid.1;
              short = short;
            },
          )),
      λ h.
          let path = h.1 in
          let parts = split-IsAssetPath s path in
          let present = join-present path.first path.others path.components.0.present in
          let length_same = ap length path.joins in
          outcome.1 (
            h.0,
            omega arith,
            path.short,
            rw parts (
                (components_error-none 0 (path.first ∷ path.others) (omega arith)).1
                  (omega (arith, path.shallow), path.components)),
          ),
    )
