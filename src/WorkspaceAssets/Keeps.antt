-- ===== src/WorkspaceAssets/Keeps.antt =====
-- modules/file_mgr/dataset.rs: the revision is written before the bytes; the parts of an upload and a delete.
use al.Prelude.{ℕ, ◌≡◌, refl, sym, Option, none, some, List, arith}
use al.Common.AssetPath.{AssetPath}
use al.Effects.{Fate, World, attempt, no_effect}
use al.Effects.Triples.{Holds, Holds-bind, Holds-bind_same, Holds-read, Holds-attempt, Holds-ensure}
use al.WorkspaceAssets.{Bytes}
use al.WorkspaceAssets.Mutations.{
  Workspace, io, bump_workspace_revision, put_revision, make_dirs, create_dir_all, rename_out,
  publish_core, cell_of, cache_cell_for_dataset, write_workspace_core, write_tombstone,
  stage_payload, recreate,
}
use al.WorkspaceAssets.Revisions.{
  seen_of, seen, SameAssets, Later, Bumped, bump_larger, bump_bounded, Bumped-Later, Advanced,
  bump_marks, seen_cached, Opened, Ordered, Opened-Later, Opened-Bumped, Ordered-Later,
}

module _ (a : Workspace) (o : Ordered a) where
  abbrev pub AtBump : ℕ → Workspace → Type 0
  AtBump c s = Bumped a c s.cached s.revision

  -- Parts that keep a claim, which must hold of a later state.
  module _ (P : Workspace → Type 0) (is_later : (s : Workspace) → P s → Later a s) where
    pub attempt-Keeps :
        (effect : Workspace → Workspace) (w : World Workspace)
        → P w.state
        → P (effect w.state)
        → Holds (λ _. P) (Later a) (attempt io effect w)
    attempt-Keeps effect w p p' =
        Holds-attempt (Later a) P io effect w (is_later w.state p) (is_later _ p') p'

    pub read-Keeps :
        (w : World Workspace) → P w.state → Holds (λ _. P) (Later a) (attempt io no_effect w)
    unfolding no_effect
    read-Keeps w p = attempt-Keeps (λ s. s) w p p

    pub create_dir_all-Keeps :
        (path : List Bytes) (w : World Workspace)
        → P w.state
        → ((s : Workspace) → P s → P (make_dirs path s))
        → Holds (λ _. P) (Later a) (create_dir_all path w)
    unfolding create_dir_all
    create_dir_all-Keeps path w p k =
        Holds-bind_same (Later a) w.state _ _ _ _
          (Holds-ensure (Later a) _ io w (is_later w.state p))
          (λ _ fates _. attempt-Keeps (make_dirs path) _ p (k w.state p))

    pub write_tombstone-Keeps :
        (w : World Workspace) → P w.state → Holds (λ _. P) (Later a) (write_tombstone w)
    unfolding write_tombstone
    write_tombstone-Keeps w p =
        Holds-bind (Later a) (λ _. P) _ _ _ (read-Keeps w p) (λ _ w p. read-Keeps w p)

    pub stage_payload-Keeps :
        (target : List Bytes) (w : World Workspace)
        → P w.state
        → ((s : Workspace) → P s → P (rename_out target s))
        → Holds (λ _. P) (Later a) (stage_payload target w)
    unfolding stage_payload
    stage_payload-Keeps target w p k =
        Holds-bind (Later a) (λ _. P) _ _ _ (read-Keeps w p)
          (λ _ w p.
            Holds-bind (Later a) (λ _. P) _ _ _ (read-Keeps w p)
              (λ _ w p.
                Holds-bind_same (Later a) w.state _ _ _ _
                  (Holds-ensure (Later a) _ io w (is_later w.state p))
                  (λ _ fates _.
                    Holds-bind (Later a) (λ _. P) _ _ _
                      (attempt-Keeps (rename_out target) _ p (k w.state p))
                      (λ _ w p.
                        Holds-bind (Later a) (λ _. P) _ _ _ (read-Keeps w p)
                          (λ _ w p. read-Keeps w p)))))

    pub recreate-Keeps :
        (target : List Bytes) (sub : Option AssetPath) (w : World Workspace)
        → P w.state
        → ((s : Workspace) → P s → P (make_dirs target s))
        → Holds (λ _. P) (Later a) (recreate target sub w)
    unfolding recreate Holds
    recreate-Keeps target none w p k =
        Holds-bind (Later a) (λ _. P) _ _ _ (create_dir_all-Keeps target w p k)
          (λ _ w p. read-Keeps w p)
    recreate-Keeps target (some sub) w p k = p

  cell_of-Opened :
      (cell : Option ℕ) (fates : List Fate)
      → a.cached ≡ cell
      → Holds (Opened a) (Later a) (cell_of cell (record { state = a; fates = fates }))
  unfolding cell_of publish_core Holds seen seen_of
  cell_of-Opened (some c) fates e = record {
    cell = e;
    revision = refl;
    shown = sym (seen_cached a c e);
    content = refl;
  }
  cell_of-Opened none fates e =
      Holds-bind_same (Later a) a _ _ _ _ (Holds-read (Later a) io _ (Ordered-Later a o))
        (λ _ fates _. record { cell = refl; revision = refl; shown = rw e refl; content = refl })

  pub cache_cell-Opened :
      (fates : List Fate)
      → Holds (Opened a) (Later a) (cache_cell_for_dataset (record { state = a; fates = fates }))
  unfolding cache_cell_for_dataset
  cache_cell-Opened fates = cell_of-Opened a.cached fates refl

  pub write_core-AtBump :
      (c : ℕ) (w : World Workspace)
      → Opened a c w.state
      → Holds (λ _. AtBump c) (Later a) (write_workspace_core (bump_workspace_revision c) w)
  unfolding write_workspace_core put_revision
  write_core-AtBump c w h =
      let b = Opened-Bumped a w.state c o h in
      Holds-attempt (Later a) (AtBump c) io _ w (Opened-Later a w.state c o h)
        (Bumped-Later a _ c b) b

  pub later : (c : ℕ) (s : Workspace) → AtBump c s → Later a s
  later c s b = Bumped-Later a s c b

  published-Later :
      (c : ℕ) (s : Workspace) → AtBump c s → Later a (publish_core (bump_workspace_revision c) s)
  unfolding publish_core seen seen_of SameAssets
  published-Later c s b =
      let top = bump_bounded c in
      let larger = bump_larger c b.bounded in
      let more = bump_larger (bump_workspace_revision c) top in
      let sees = b.sees in
      record {
        ordered = rw b.written (omega arith);
        near = rw b.written more;
        sees = omega arith;
        grows = rw b.written b.grows;
        marked = (Bumped-Later a s c b).marked;
      }

  pub published-Advanced :
      (c : ℕ) (s : Workspace)
      → AtBump c s
      → Advanced a (bump_workspace_revision c) (publish_core (bump_workspace_revision c) s)
  unfolding publish_core seen seen_of
  published-Advanced c s b = record {
    later = published-Later c s b;
    shown = refl;
    past = bump_marks (seen a) c b.sees;
  }
