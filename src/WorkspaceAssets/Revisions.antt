-- ===== src/WorkspaceAssets/Revisions.antt =====
-- modules/file_mgr/dataset.rs: the revision is written before the bytes.
use al.Prelude.{
  ℕ, ◌≤◌, ◌<◌, ◌≡◌, ◌⊎◌, inl, inr, refl, sym, ◌∙◌, ap, true, Option, none, some, List, ◌∷◌, arith,
  ltb, Bool-cases,
}
use al.WorkspaceAssets.{Bytes, AssetTree, dir_name, accepts_uploads}
use al.WorkspaceAssets.Mutations.{Workspace, u64_max, bump_workspace_revision}

unfoldable pub seen_of : Option ℕ → ℕ → ℕ
seen_of none r = r
seen_of (some c) r = c

-- The revision that the daemon shows, and to which it compares the heads.
unfoldable pub seen : Workspace → ℕ
unfolding seen_of
seen s = seen_of s.cached s.revision

-- The data sets and converters of two states are the same.
unfoldable pub SameAssets : Workspace → Workspace → Type 0
SameAssets a b =
    (tree : AssetTree) (rest : List Bytes)
    → accepts_uploads tree ≡ true
    → a.content (dir_name tree ∷ rest) ≡ b.content (dir_name tree ∷ rest)

-- A state and a later one.
pub record Later (a b : Workspace) : Type 0 where
  pub ordered : seen b ≤ b.revision
  pub near : b.revision ≤ bump_workspace_revision (seen b)
  pub sees : seen a ≤ seen b
  pub grows : a.revision ≤ b.revision
  pub marked : (seen a < b.revision) ⊎ ((b.revision ≡ u64_max) ⊎ SameAssets a b)

-- A later state which shows the revision `r`, and that is past the one that was shown.
pub record Advanced (a : Workspace) (r : ℕ) (b : Workspace) : Type 0 where
  pub later : Later a b
  pub shown : seen b ≡ r
  pub past : (seen a < r) ⊎ (r ≡ u64_max)

-- A cached core, and the revision after it in `workspace.json`.
pub record Bumped (a : Workspace) (c : ℕ) (cached : Option ℕ) (revision : ℕ) : Type 0 where
  pub cell : cached ≡ some c
  pub written : revision ≡ bump_workspace_revision c
  pub bounded : c ≤ u64_max
  pub sees : seen a ≤ c
  pub grows : a.revision ≤ bump_workspace_revision c

pub bump_larger : (c : ℕ) → c ≤ u64_max → c ≤ bump_workspace_revision c
unfolding bump_workspace_revision u64_max
bump_larger c h = omega arith

pub bump_bounded : (c : ℕ) → bump_workspace_revision c ≤ u64_max
unfolding bump_workspace_revision u64_max
bump_bounded c = omega arith

pub bump_marks :
    (n c : ℕ) → n ≤ c → (n < bump_workspace_revision c) ⊎ (bump_workspace_revision c ≡ u64_max)
unfolding bump_workspace_revision u64_max
bump_marks n c h = elim (Bool-cases (ltb c u64_max)) [
  | inl fits ↦ inl (ground arith)
  | inr full ↦ inr (ground arith)
]

pub Bumped-Later : (a s : Workspace) (c : ℕ) → Bumped a c s.cached s.revision → Later a s
unfolding seen seen_of
Bumped-Later a s c b =
    let larger = bump_larger c b.bounded in
    record {
      ordered = rw (b.cell, b.written) larger;
      near = rw (b.cell, b.written) (omega arith);
      sees = rw b.cell b.sees;
      grows = rw b.written b.grows;
      marked =
          rw b.written (elim (bump_marks (seen a) c b.sees) [
            | inl more ↦ inl more
            | inr full ↦ inr (inl full)
          ]);
    }

-- A state whose core is cached, and which is otherwise the given one.
pub record Opened (a : Workspace) (c : ℕ) (s : Workspace) : Type 0 where
  pub cell : s.cached ≡ some c
  pub revision : s.revision ≡ a.revision
  pub shown : c ≡ seen a
  pub content : s.content ≡ a.content

pub record Ordered (a : Workspace) : Type 0 where
  pub ordered : seen a ≤ a.revision
  pub near : a.revision ≤ bump_workspace_revision (seen a)

pub seen_cached : (s : Workspace) (c : ℕ) → s.cached ≡ some c → seen s ≡ c
unfolding seen seen_of
seen_cached s c e = rw e refl

pub Opened-Later : (a s : Workspace) (c : ℕ) → Ordered a → Opened a c s → Later a s
unfolding SameAssets
Opened-Later a s c o h =
    let same : seen s ≡ seen a = seen_cached s c h.cell ∙ h.shown in
    record {
      ordered = rw (same, h.revision) o.ordered;
      near = rw (same, h.revision) o.near;
      sees = rw same (omega arith);
      grows = rw h.revision (omega arith);
      marked = inr (inr (λ tree rest accepts. ap (λ f. f (dir_name tree ∷ rest)) (sym h.content)));
    }

pub Opened-Bumped :
    (a s : Workspace) (c : ℕ)
    → Ordered a
    → Opened a c s
    → Bumped a c s.cached (bump_workspace_revision c)
Opened-Bumped a s c o h =
    let low = o.ordered in
    let near = o.near in
    let top = bump_bounded (seen a) in
    record {
      cell = h.cell;
      written = refl;
      bounded = rw h.shown (omega arith);
      sees = rw h.shown (omega arith);
      grows = rw h.shown near;
    }

pub Ordered-Later : (a : Workspace) → Ordered a → Later a a
unfolding SameAssets
Ordered-Later a o = record {
  ordered = o.ordered;
  near = o.near;
  sees = omega arith;
  grows = omega arith;
  marked = inr (inr (λ tree rest accepts. refl));
}
