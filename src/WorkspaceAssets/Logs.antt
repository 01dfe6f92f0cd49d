-- ===== src/WorkspaceAssets/Logs.antt =====
-- modules/file_mgr/dataset.rs: the revision is written before the bytes; deletes of logs leave both.
use al.Prelude.{
  ◌≡◌, inr, refl, ◌∙◌, ap₂, Bool, false, not, Option, none, some, List, [], ◌∷◌, arith,
}
use al.Common.AssetPath.{AssetPath, components}
use al.Effects.{Fate}
use al.Effects.Triples.{Holds, Holds-bind, Holds-bind_same, Holds-ok_or, Holds-ensure, Holds-mono}
use al.WorkspaceAssets.{
  Bytes, AssetTree, datasets, converters, training_logs, converter_logs, dir_name, accepts_uploads,
  build_delete_target,
}
use al.WorkspaceAssets.Mutations.{
  start_async_tree_delete, Workspace, make_dirs, is_prefix, rename_out, Delete,
  start_async_log_delete, delete_in, start_workspace_asset_delete,
}
use al.WorkspaceAssets.Revisions.{
  Advanced, seen_of, seen, SameAssets, Later, Ordered, Ordered-Later,
}
use al.Prelude.Texts.{same_text}
use al.WorkspaceAssets.Keeps.{write_tombstone-Keeps, stage_payload-Keeps, recreate-Keeps}
use al.WorkspaceAssets.Commits.{admit_delete-Same, start_async_tree_delete-Advanced}

other_tree :
    (x y : AssetTree)
    → accepts_uploads x ≡ not (accepts_uploads y)
    → same_text (dir_name x) (dir_name y) ≡ false
unfolding accepts_uploads dir_name same_text
other_tree datasets datasets e = absurd cc
other_tree datasets converters e = absurd cc
other_tree datasets training_logs e = refl
other_tree datasets converter_logs e = refl
other_tree converters datasets e = absurd cc
other_tree converters converters e = absurd cc
other_tree converters training_logs e = refl
other_tree converters converter_logs e = refl
other_tree training_logs datasets e = refl
other_tree training_logs converters e = refl
other_tree training_logs training_logs e = absurd cc
other_tree training_logs converter_logs e = absurd cc
other_tree converter_logs datasets e = refl
other_tree converter_logs converters e = refl
other_tree converter_logs training_logs e = absurd cc
other_tree converter_logs converter_logs e = absurd cc

target_lem :
    (tree : AssetTree) (sub : Option AssetPath)
    → (below : List Bytes) × (build_delete_target tree sub ≡ dir_name tree ∷ below)
unfolding build_delete_target
target_lem tree none = ([], refl)
target_lem tree (some rel) = (components rel, refl)

rename_out-SameAssets :
    (log : AssetTree) (sub : Option AssetPath) (s : Workspace)
    → accepts_uploads log ≡ false
    → SameAssets s (rename_out (build_delete_target log sub) s)
unfolding SameAssets rename_out is_prefix
rename_out-SameAssets log sub s e tree rest e' =
    let (below, is) = target_lem log sub in rw (is, other_tree log tree (rw (e, e') refl)) refl

make_dirs-SameAssets :
    (log : AssetTree) (sub : Option AssetPath) (s : Workspace)
    → accepts_uploads log ≡ false
    → SameAssets s (make_dirs (build_delete_target log sub) s)
unfolding SameAssets make_dirs is_prefix
make_dirs-SameAssets log sub s e tree rest e' =
    let (below, is) = target_lem log sub in rw (is, other_tree tree log (rw (e, e') refl)) refl

pub SameAssets-trans : (a b c : Workspace) → SameAssets a b → SameAssets b c → SameAssets a c
unfolding SameAssets
SameAssets-trans a b c h k tree rest e = h tree rest e ∙ k tree rest e

module _ (a : Workspace) (o : Ordered a) where
  -- Both revisions and the assets are as they were.
  pub record Untouched (s : Workspace) : Type 0 where
    cell : s.cached ≡ a.cached
    revision : s.revision ≡ a.revision
    assets : SameAssets a s

  Untouched-Later : (s : Workspace) → Untouched s → Later a s
  unfolding seen
  Untouched-Later s u =
      let same : seen s ≡ seen a = ap₂ seen_of u.cell u.revision in
      record {
        ordered = rw (same, u.revision) o.ordered;
        near = rw (same, u.revision) o.near;
        sees = rw same (omega arith);
        grows = rw u.revision (omega arith);
        marked = inr (inr u.assets);
      }

  Untouched-content :
      (s t : Workspace)
      → Untouched s
      → t.cached ≡ s.cached
      → t.revision ≡ s.revision
      → SameAssets s t
      → Untouched t
  Untouched-content s t u cell revision assets = record {
    cell = cell ∙ u.cell;
    revision = revision ∙ u.revision;
    assets = SameAssets-trans a s t u.assets assets;
  }

  start_async_log_delete-Later :
      (admitted producer_active : Bool) (tree : AssetTree) (sub : Option AssetPath)
      (fates : List Fate)
      → accepts_uploads tree ≡ false
      → Holds
          (λ _. Later a)
          (Later a)
          (start_async_log_delete admitted producer_active tree sub
            (record { state = a; fates = fates }))
  unfolding start_async_log_delete rename_out make_dirs SameAssets
  start_async_log_delete-Later admitted producer_active tree sub fates log =
      let X = Later a in
      let x = Ordered-Later a o in
      let U = Untouched in
      let out : (s : Workspace) → U s → U (rename_out (build_delete_target tree sub) s) =
        λ s u. Untouched-content s _ u refl refl (rename_out-SameAssets tree sub s log) in
      let made : (s : Workspace) → U s → U (make_dirs (build_delete_target tree sub) s) =
        λ s u. Untouched-content s _ u refl refl (make_dirs-SameAssets tree sub s log) in
      let start : U a = record { cell = refl; revision = refl; assets = λ tree rest e. refl } in
      Holds-mono (λ _. U) (λ _. X) X X _ (λ _. Untouched-Later) (λ s h. h)
        (Holds-bind_same X a _ _ _ _ (Holds-ensure X _ _ _ x) (λ _ fates _.
          Holds-bind_same X a _ _ _ _ (Holds-ensure X _ _ _ x) (λ _ fates _.
            Holds-bind_same X a _ _ _ _ (admit_delete-Same a o admitted tree sub fates)
              (λ _ fates _.
                Holds-bind X (λ _. U) _ _ _ (write_tombstone-Keeps a o U Untouched-Later _ start)
                  (λ _ w u.
                    Holds-bind X (λ _. U) _ _ _
                      (stage_payload-Keeps a o U Untouched-Later _ w u out)
                      (λ _ w u. recreate-Keeps a o U Untouched-Later _ sub w u made))))))

  tree_delete-Later :
      (admitted : Bool) (tree : AssetTree) (sub : Option AssetPath) (fates : List Fate)
      → Holds
          (λ _. Later a)
          (Later a)
          (start_async_tree_delete admitted tree sub (record { state = a; fates = fates }))
  tree_delete-Later admitted tree sub fates =
      let X = Later a in
      let Q : Unit → Workspace → Type 0 = λ _ s. Advanced a (seen s) s in
      Holds-mono Q (λ _. X) X X _ (λ _ s h. h.later) (λ s h. h)
        (start_async_tree_delete-Advanced a o admitted tree sub fates)

  delete_in-Later :
      (d : Delete) (tree : AssetTree) (sub : Option AssetPath) (fates : List Fate)
      → Holds (λ _. Later a) (Later a) (delete_in d tree sub (record { state = a; fates = fates }))
  unfolding delete_in accepts_uploads
  delete_in-Later d datasets sub fates = tree_delete-Later d.admitted datasets sub fates
  delete_in-Later d converters sub fates = tree_delete-Later d.admitted converters sub fates
  delete_in-Later d training_logs sub fates =
      start_async_log_delete-Later d.admitted _ training_logs sub fates refl
  delete_in-Later d converter_logs sub fates =
      start_async_log_delete-Later d.admitted _ converter_logs sub fates refl

  pub start_workspace_asset_delete-Later :
      (d : Delete) (fates : List Fate)
      → Holds
          (λ _. Later a)
          (Later a)
          (start_workspace_asset_delete d (record { state = a; fates = fates }))
  unfolding start_workspace_asset_delete
  start_workspace_asset_delete-Later d fates =
      let X = Later a in
      let x = Ordered-Later a o in
      Holds-bind_same X a _ _ _ _ (Holds-ok_or X _ _ _ x) (λ parsed fates _.
        Holds-bind_same X a _ _ _ _ (Holds-ensure X _ _ _ x)
          (λ _ fates _. delete_in-Later d parsed.0 parsed.1 fates))
