-- ===== src/WorkspaceAssets/Life.antt =====
-- modules/file_mgr/dataset.rs: any history of uploads, deletes and restarts.
use al.Prelude.{inl, inr, refl, none, List, arith}
use al.Effects.{Fate, final}
use al.Effects.Triples.{Holds-final}
use al.WorkspaceAssets.Mutations.{
  Workspace, Upload, upload_workspace_file, Delete, start_workspace_asset_delete,
}
use al.WorkspaceAssets.Revisions.{
  Advanced, seen, seen_of, SameAssets, Later, bump_larger, bump_bounded, Ordered, Ordered-Later,
}
use al.WorkspaceAssets.Commits.{upload_workspace_file-Advanced}
use al.WorkspaceAssets.Logs.{start_workspace_asset_delete-Later, SameAssets-trans}

-- The caches are empty after a restart.
unfoldable pub restart : Workspace → Workspace
restart s = record s { cached = none }

-- What may come of a workspace: calls with any fates, after which the process may be dead, and
-- restarts.
pub data Life (a : Workspace) : Workspace → Type 0 where
  begin : Life a a
  upload :
      {s : Workspace}
      → Life a s
      → (up : Upload) (fates : List Fate)
      → Life a (final (upload_workspace_file up (record { state = s; fates = fates }))).state
  delete :
      {s : Workspace}
      → Life a s
      → (d : Delete) (fates : List Fate)
      → Life a (final (start_workspace_asset_delete d (record { state = s; fates = fates }))).state
  boot : {s : Workspace} → Life a s → Life a (restart s)

Later-Ordered : (a b : Workspace) → Later a b → Ordered b
Later-Ordered a b l = record { ordered = l.ordered; near = l.near }

restart-Later : (s : Workspace) → Ordered s → Later s (restart s)
unfolding restart seen seen_of SameAssets
restart-Later s o =
    let larger = bump_larger s.revision (omega (arith, o.near, bump_bounded (seen s))) in
    record {
      ordered = omega arith;
      near = larger;
      sees = o.ordered;
      grows = omega arith;
      marked = inr (inr (λ tree rest e. refl));
    }

Later_trans : (a b c : Workspace) → Later a b → Later b c → Later a c
Later_trans a b c h k =
    let sees_first = h.sees in
    let sees_next = k.sees in
    let grows_first = h.grows in
    let grows_next = k.grows in
    let top = k.near in
    let top' = bump_bounded (seen c) in
    record {
      ordered = k.ordered;
      near = k.near;
      sees = omega arith;
      grows = omega arith;
      marked = elim h.marked [
        | inl more ↦ inl (omega arith)
        | inr (inl full) ↦ inr (inl (omega arith))
        | inr (inr same) ↦ elim k.marked [
          | inl more ↦ inl (omega arith)
          | inr (inl full) ↦ inr (inl full)
          | inr (inr same') ↦ inr (inr (SameAssets-trans a b c same same'))
        ]
      ];
    }

-- From a state in which the cached revision is the one in `workspace.json` or the one before, and
-- through any uploads, deletes, failures, deaths of the process and restarts: it stays so; neither
-- revision goes back; and if a data set or a converter is no longer as it was, then the revision in
-- `workspace.json` is larger than the one that was shown, or it is the largest `u64`.
pub Life-Later : (a b : Workspace) → Ordered a → Life a b → Later a b
Life-Later a _ o begin = Ordered-Later a o
Life-Later a _ o (upload {s} life up fates) =
    let l = Life-Later a s o life in
    let next =
      Holds-final (Later s) (Advanced s) _
        (upload_workspace_file-Advanced s (Later-Ordered a s l) up fates) (λ _ _ h. h.later) in
    Later_trans a s _ l next
Life-Later a _ o (delete {s} life d fates) =
    let l = Life-Later a s o life in
    let next =
      Holds-final (Later s) (λ _. Later s) _
        (start_workspace_asset_delete-Later s (Later-Ordered a s l) d fates) (λ _ _ h. h) in
    Later_trans a s _ l next
Life-Later a _ o (boot {s} life) =
    let l = Life-Later a s o life in Later_trans a s _ l (restart-Later s (Later-Ordered a s l))
