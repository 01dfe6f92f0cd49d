-- ===== src/WorkspaceAssets/Commits.antt =====
-- modules/file_mgr/dataset.rs: the revision is written before the bytes in an upload and a delete.
use al.Prelude.{◌≡◌, refl, Bool, true, not, Option, none, some, List, any}
use al.Common.AssetPath.{AssetPath}
use al.Effects.{Fate, World, ensure}
use al.Effects.Triples.{
  Holds, Holds-bind, Holds-bind_same, Holds-read, Holds-ok_or, Holds-ensure, Holds-mono,
}
use al.WorkspaceAssets.{Bytes, AssetTree, build_display_path}
use al.WorkspaceAssets.Mutations.{
  publish_core, Workspace, io, make_dirs, rename_in, rename_out, check_siblings, collides,
  name_conflict, Upload, commit_upload, upload_workspace_file, admit_delete,
  start_async_tree_delete,
}
use al.WorkspaceAssets.Revisions.{
  Later, Bumped-Later, Opened, Ordered, Opened-Later, Advanced, seen, seen_of, Ordered-Later,
}
use al.WorkspaceAssets.Keeps.{
  AtBump, create_dir_all-Keeps, read-Keeps, attempt-Keeps, write_tombstone-Keeps,
  stage_payload-Keeps, recreate-Keeps, cache_cell-Opened, write_core-AtBump, later,
  published-Advanced,
}

module _ (a : Workspace) (o : Ordered a) where
  commit_upload-Advanced :
      (path : List Bytes) (bytes : Bytes) (fates : List Fate)
      → Holds
          (Advanced a)
          (Later a)
          (commit_upload path bytes (record { state = a; fates = fates }))
  unfolding commit_upload rename_in make_dirs Holds
  commit_upload-Advanced path bytes fates =
      Holds-bind (Later a) (Opened a) _ _ _ (cache_cell-Opened a o fates) (λ c w h.
        Holds-bind (Later a) (λ _. AtBump a o c) _ _ _ (write_core-AtBump a o c w h)
          (λ _ w b.
            Holds-bind (Later a) (λ _. AtBump a o c) _ _ _
              (create_dir_all-Keeps a o (AtBump a o c) (later a o c) _ w b (λ s b. b))
              (λ _ w b.
                Holds-bind_same (Later a) w.state _ _ _ _
                  (Holds-ensure (Later a) _ io w (Bumped-Later a w.state c b))
                  (λ _ fates _.
                    Holds-bind (Later a) (λ _. AtBump a o c) _ _ _
                      (attempt-Keeps a o (AtBump a o c) (later a o c) (rename_in path bytes) _ b b)
                      (λ _ w b.
                        Holds-bind (Later a) (λ _. AtBump a o c) _ _ _
                          (read-Keeps a o (AtBump a o c) (later a o c) w b)
                          (λ _ w b. published-Advanced a o c w.state b))))))

  check_siblings-Later :
      (target : Bytes) (siblings : Option (List Bytes)) (fates : List Fate)
      → Holds
          (λ _ s. Unit × (s ≡ a))
          (Later a)
          (check_siblings target siblings (record { state = a; fates = fates }))
  unfolding check_siblings Holds
  check_siblings-Later target none fates = (tt, refl)
  check_siblings-Later target (some names) fates =
      let x = Ordered-Later a o in
      Holds-bind_same (Later a) a _ _ _ _ (Holds-read (Later a) io _ x) (λ _ fates _.
        let clear = not (any (collides target) names) in
        let w : World Workspace = record { state = a; fates = fates } in
        let P : Unit → Workspace → Type 0 = λ _ s. (clear ≡ true) × (s ≡ a) in
        let Q : Unit → Workspace → Type 0 = λ _ s. Unit × (s ≡ a) in
        Holds-mono P Q (Later a) (Later a) (ensure clear name_conflict w) (λ _ s h. (tt, h.1))
          (λ s h. h) (Holds-ensure (Later a) clear name_conflict w x))

  pub upload_workspace_file-Advanced :
      (up : Upload) (fates : List Fate)
      → Holds
          (Advanced a)
          (Later a)
          (upload_workspace_file up (record { state = a; fates = fates }))
  unfolding upload_workspace_file
  upload_workspace_file-Advanced up fates =
      let X = Later a in
      let x = Ordered-Later a o in
      Holds-bind_same X a _ _ _ _ (Holds-ok_or X _ _ _ x) (λ parsed fates _.
        Holds-bind_same X a _ _ _ _ (Holds-ensure X _ _ _ x) (λ _ fates _.
          Holds-bind_same X a _ _ _ _ (Holds-ensure X _ _ _ x) (λ _ fates _.
            Holds-bind_same X a _ _ _ _ (Holds-ensure X _ _ _ x) (λ _ fates _.
              Holds-bind_same X a _ _ _ _ (Holds-ensure X _ _ _ x) (λ _ fates _.
                Holds-bind_same X a _ _ _ _ (Holds-ensure X _ _ _ x) (λ _ fates _.
                  Holds-bind_same X a _ _ _ _ (check_siblings-Later _ up.siblings fates)
                    (λ _ fates _. commit_upload-Advanced _ up.bytes fates)))))))

  pub admit_delete-Same :
      (admitted : Bool) (tree : AssetTree) (sub : Option AssetPath) (fates : List Fate)
      → Holds
          (λ _ s. (admitted ≡ true) × (s ≡ a))
          (Later a)
          (admit_delete admitted tree sub (record { state = a; fates = fates }))
  unfolding admit_delete
  admit_delete-Same admitted tree sub fates =
      let X = Later a in
      let x = Ordered-Later a o in
      Holds-bind_same X a _ _ _ _ (Holds-read X io _ x) (λ _ fates _.
        Holds-bind_same X a _ _ _ _ (Holds-ensure X _ _ _ x) (λ _ fates _.
          Holds-bind_same X a (λ _. build_display_path tree sub ≡ some _) _ _ _
            (Holds-ok_or X _ _ _ x) (λ _ fates _. Holds-ensure X admitted _ _ x)))

  pub start_async_tree_delete-Advanced :
      (admitted : Bool) (tree : AssetTree) (sub : Option AssetPath) (fates : List Fate)
      → Holds
          (λ _ s. Advanced a (seen s) s)
          (Later a)
          (start_async_tree_delete admitted tree sub (record { state = a; fates = fates }))
  unfolding start_async_tree_delete rename_out make_dirs Holds seen seen_of publish_core
  start_async_tree_delete-Advanced admitted tree sub fates =
      let X = Later a in
      Holds-bind_same X a _ _ _ _ (admit_delete-Same admitted tree sub fates) (λ _ fates _.
        Holds-bind X (Opened a) _ _ _ (cache_cell-Opened a o fates) (λ c w h.
          let opened : (s : Workspace) → Opened a c s → X s = λ s h. Opened-Later a s c o h in
          Holds-bind X (λ _. Opened a c) _ _ _ (write_tombstone-Keeps a o (Opened a c) opened w h)
            (λ _ w h.
              Holds-bind X (λ _. AtBump a o c) _ _ _ (write_core-AtBump a o c w h)
                (λ _ w b.
                  Holds-bind X (λ _. AtBump a o c) _ _ _
                    (stage_payload-Keeps a o (AtBump a o c) (later a o c) _ w b (λ s b. b))
                    (λ _ w b.
                      Holds-bind X (λ _. AtBump a o c) _ _ _
                        (recreate-Keeps a o (AtBump a o c) (later a o c) _ sub w b (λ s b. b))
                        (λ _ w b. published-Advanced a o c w.state b))))))
