-- ===== src/Common/AssetPath/Split.antt =====
-- modules/common/asset_path.rs: splitting at `/` and joining again.
use al.Prelude.{
  ℕ, ◌≡◌, refl, sym, ◌∙◌, ap, ap₂, false, List, [], ◌∷◌, ◌++◌, arith, Bool-cases, inl, inr, ◌==◌,
  ==_iff, any, All, ==_false, ℕ_discrete,
}
use al.Common.Bytes.{slash}
use al.Common.AssetPath.{onto_first, split}

-- The components with a `/` between each two.
unfoldable pub join : List (List ℕ) → List ℕ
join [] = []
join (c ∷ []) = c
join (c ∷ d ∷ ds) = c ++ slash ∷ join (d ∷ ds)

abbrev pub NoSlash : List ℕ → Type 0
NoSlash c = any (λ b. b == slash) c ≡ false

join-onto_first :
    (b : ℕ) (c : List ℕ) (cs : List (List ℕ)) → join (onto_first b (c ∷ cs)) ≡ b ∷ join (c ∷ cs)
unfolding join onto_first
join-onto_first b c [] = refl
join-onto_first b c (d ∷ ds) = refl

join-empty : (c : List ℕ) (cs : List (List ℕ)) → join ([] ∷ c ∷ cs) ≡ slash ∷ join (c ∷ cs)
unfolding join
join-empty c cs = refl

pub split-cons : (s : List ℕ) → (c : List ℕ) × (cs : List (List ℕ)) × (split s ≡ c ∷ cs)
unfolding split onto_first
split-cons [] = ([], [], refl)
split-cons (b ∷ bs) = elim (Bool-cases (b == slash)) [
  | inl t ↦ ([], split bs, rw t refl)
  | inr t ↦ let (c, cs, h) = split-cons bs in (b ∷ c, cs, rw (t, h, onto_first) refl)
]

-- Splitting loses nothing.
pub join-split : (s : List ℕ) → join (split s) ≡ s
unfolding split
join-split [] = unfold join in refl
join-split (b ∷ bs) =
    let (c, cs, h) = split-cons bs in
    let rest = join-split bs in
    elim (ℕ_discrete b slash) [
      | yes at_slash ↦
          rw ((==_iff b slash).1 at_slash)
            (rw h (join-empty c cs ∙ ap₂ ◌∷◌ (sym at_slash) (ap join (sym h) ∙ rest)))
      | no other ↦
          rw (==_false b slash other)
            (rw h (join-onto_first b c cs ∙ ap (◌∷◌ b) (ap join (sym h) ∙ rest)))
    ]

split-last : (c : List ℕ) → NoSlash c → split c ≡ c ∷ []
unfolding split onto_first
split-last [] h = refl
split-last (b ∷ bs) h = elim (Bool-cases (b == slash)) [
  | inl t ↦ absurd (ground arith)
  | inr t ↦ rw (t, split-last bs (rw t at h)) refl
]

split-append : (c rest : List ℕ) → NoSlash c → split (c ++ slash ∷ rest) ≡ c ∷ split rest
unfolding split onto_first
split-append [] rest h = refl
split-append (b ∷ bs) rest h = elim (Bool-cases (b == slash)) [
  | inl t ↦ absurd (ground arith)
  | inr t ↦ rw (t, split-append bs rest (rw t at h)) refl
]

-- Components without a `/` come back from their join.
pub split-join :
    (c : List ℕ) (cs : List (List ℕ)) → All NoSlash (c ∷ cs) → split (join (c ∷ cs)) ≡ c ∷ cs
unfolding join
split-join c [] h = split-last c h.0
split-join c (d ∷ ds) h = split-append c (join (d ∷ ds)) h.0 ∙ ap (◌∷◌ c) (split-join d ds h.1)
