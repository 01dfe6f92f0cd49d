-- ===== src/WorkspaceAssets/Heads.antt =====
-- modules/common/workspace.rs: the status of a head, and modules/file_mgr/dataset.rs: what becomes of it.
use al.Prelude.{
  ℕ, ◌<◌, ◌≡◌, ◌⊎◌, inl, inr, Bool, Option, List, ◌==◌, if◌then◌else◌, arith, ==_false, refl,
}
use al.Effects.{Fate}
use al.Effects.Triples.{Holds, Holds-mono}
use al.Common.AssetPath.{AssetPath}
use al.WorkspaceAssets.{AssetTree}
use al.WorkspaceAssets.Mutations.{
  Workspace, u64_max, Upload, upload_workspace_file, start_async_tree_delete,
}
use al.WorkspaceAssets.Revisions.{seen, SameAssets, Later, Advanced, Ordered}
use al.WorkspaceAssets.Commits.{upload_workspace_file-Advanced, start_async_tree_delete-Advanced}
use al.WorkspaceAssets.Life.{Life, Life-Later}

pub data HeadStatus : Type 0 where
  current stale : HeadStatus

-- `HeadStatus::from_revisions`, of the revisions' ids.
unfoldable pub from_revisions : ℕ → ℕ → HeadStatus
from_revisions head workspace = if head == workspace then current else stale

larger-stale : (head workspace : ℕ) → head < workspace → from_revisions head workspace ≡ stale
unfolding from_revisions
larger-stale head workspace lt = rw (==_false head workspace (λ e. absurd (omega arith))) refl

-- A later state that shows the revision `r`, to which a head that was current before is stale.
pub record Outdated (a : Workspace) (r : ℕ) (b : Workspace) : Type 0 where
  pub later : Later a b
  pub shown : seen b ≡ r
  pub status : (from_revisions (seen a) r ≡ stale) ⊎ (r ≡ u64_max)

Advanced-Outdated : (a : Workspace) (r : ℕ) (b : Workspace) → Advanced a r b → Outdated a r b
Advanced-Outdated a r b h = record {
  later = h.later;
  shown = h.shown;
  status = elim h.past [ inl more ↦ inl (larger-stale (seen a) r more) | inr full ↦ inr full ];
}

-- When an upload returns, whatever becomes of its calls, the daemon shows the revision of the
-- receipt, and a head that was current before is stale, unless that is the largest `u64`. When it
-- fails or dies, and when it returns, the state is a later one: the cached revision is the one in
-- `workspace.json` or the one before, neither goes back, and if a data set or a converter is no
-- longer as it was, the revision in `workspace.json` is larger than the one that was shown, or it is
-- the largest `u64`.
pub upload_workspace_file-Outdated :
    (a : Workspace) (up : Upload) (fates : List Fate)
    → Ordered a
    → Holds (Outdated a) (Later a) (upload_workspace_file up (record { state = a; fates = fates }))
upload_workspace_file-Outdated a up fates o =
    Holds-mono (Advanced a) (Outdated a) (Later a) (Later a) _ (λ r s h. Advanced-Outdated a r s h)
      (λ s h. h) (upload_workspace_file-Advanced a o up fates)

-- So it is when a delete of data sets or converters returns.
start_async_tree_delete-Outdated :
    (a : Workspace) (admitted : Bool) (tree : AssetTree) (sub : Option AssetPath)
    (fates : List Fate)
    → Ordered a
    → Holds
        (λ _ s. Outdated a (seen s) s)
        (Later a)
        (start_async_tree_delete admitted tree sub (record { state = a; fates = fates }))
start_async_tree_delete-Outdated a admitted tree sub fates o =
    let P : Unit → Workspace → Type 0 = λ _ s. Advanced a (seen s) s in
    let Q : Unit → Workspace → Type 0 = λ _ s. Outdated a (seen s) s in
    Holds-mono P Q (Later a) (Later a) _ (λ _ s h. Advanced-Outdated a (seen s) s h) (λ s h. h)
      (start_async_tree_delete-Advanced a o admitted tree sub fates)

-- After any uploads, deletes, failed calls, deaths of the process and restarts, a head that was
-- current before is stale to the revision in `workspace.json`, unless this is the largest `u64` or
-- the data sets and converters are as they were.
pub from_revisions-Life :
    (a b : Workspace)
    → Ordered a
    → Life a b
    → b.revision < u64_max
    → ¬ SameAssets a b
    → from_revisions (seen a) b.revision ≡ stale
from_revisions-Life a b o life room changed = elim ((Life-Later a b o life).marked) [
  | inl more ↦ larger-stale (seen a) b.revision more
  | inr (inl full) ↦ absurd (omega arith)
  | inr (inr same) ↦ absurd (changed same)
]
