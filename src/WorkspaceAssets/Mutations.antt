-- ===== src/WorkspaceAssets/Mutations.antt =====
-- modules/file_mgr/dataset.rs, cache.rs: the uploads and deletes of one workspace. The staging
-- directory of a delete is in StagedDelete; here its calls only succeed or fail.
use al.Prelude.{
  ℕ, ◌+◌, ◌^◌, ◌-◌, Bool, true, false, ◌&&◌, not, Option, none, some, List, [], ◌∷◌, leb,
  if◌then◌else◌, min, any, map,
}
use al.Prelude.Texts.{same_text}
use al.Common.AssetPath.{AssetPath, components}
use al.Effects.{World, Run, done, bind, attempt, ok_or, ensure, no_effect}
use al.WorkspaceAssets.{
  Bytes, AssetTree, datasets, converters, training_logs, converter_logs, accepts_uploads,
  parse_mutable_path, is_deep_enough, is_log_subpath, build_delete_target, build_display_path,
}

-- What stands at a path of the workspace.
pub data Node : Type 0 where
  file : Bytes → Node
  directory : Node

-- The revision in `workspace.json` and in the cached core, and the asset trees.
pub record Workspace : Type 0 where
  pub revision : ℕ
  pub cached : Option ℕ
  pub content : List Bytes → Option Node

-- `panicked` is the panic of `build_display_path`.
pub data FileError : Type 0 where
  invalid_name job_conflict not_found name_conflict io panicked : FileError

unfoldable pub u64_max : ℕ
u64_max = 2 ^ 64 - 1

-- `bump_workspace_revision`, without the time.
unfoldable pub bump_workspace_revision : ℕ → ℕ
unfolding u64_max
bump_workspace_revision id = min (id + 1) u64_max

unfoldable pub is_prefix : List Bytes → List Bytes → Bool
is_prefix [] q = true
is_prefix (p ∷ ps) [] = false
is_prefix (p ∷ ps) (c ∷ cs) = same_text p c && is_prefix ps cs

unfoldable pub is_missing : Option Node → Bool
is_missing none = true
is_missing (some n) = false

unfoldable pub is_directory : Option Node → Bool
is_directory none = false
is_directory (some (file b)) = false
is_directory (some directory) = true

unfoldable pub put_revision : ℕ → Workspace → Workspace
put_revision r s = record s { revision = r }

-- Directories at the path and at its ancestors, where nothing stands.
unfoldable pub make_dirs : List Bytes → Workspace → Workspace
make_dirs path s = record s {
  content =
      λ q. if is_prefix q path && is_missing (s.content q) then some directory else s.content q;
}

unfoldable pub is_file : Option Node → Bool
is_file none = false
is_file (some (file b)) = true
is_file (some directory) = false

-- A path with its ancestors.
unfoldable pub ancestors : List Bytes → List (List Bytes)
ancestors [] = [] ∷ []
ancestors (c ∷ cs) = [] ∷ map (◌∷◌ c) (ancestors cs)

unfoldable pub create_dir_all : List Bytes → World Workspace → Run Workspace FileError Unit
unfolding make_dirs is_file ancestors
create_dir_all path w =
    bind (ensure (not (any (λ p. is_file (w.state.content p)) (ancestors path))) io w)
      (λ _ w. attempt io (make_dirs path) w)

unfoldable pub is_path : List Bytes → List Bytes → Bool
is_path p q = is_prefix p q && is_prefix q p

-- The rename of the uploaded file, and that of a target into the staging directory.
unfoldable pub rename_in : List Bytes → Bytes → Workspace → Workspace
rename_in path bytes s = record s {
  content = λ q. if is_path path q then some (file bytes) else s.content q;
}

unfoldable pub rename_out : List Bytes → Workspace → Workspace
rename_out target s = record s { content = λ q. if is_prefix target q then none else s.content q }

unfoldable pub publish_core : ℕ → Workspace → Workspace
publish_core r s = record s { cached = some r }

-- The revision of the cached core; it is read from the disk at the first use.
unfoldable pub cell_of : Option ℕ → World Workspace → Run Workspace FileError ℕ
unfolding publish_core
cell_of (some r) w = done r w
cell_of none w =
    bind (attempt io no_effect w)
      (λ _ w. done w.state.revision (record w { state = publish_core w.state.revision w.state }))

unfoldable pub cache_cell_for_dataset : World Workspace → Run Workspace FileError ℕ
unfolding cell_of
cache_cell_for_dataset w = cell_of w.state.cached w

unfoldable pub write_workspace_core : ℕ → World Workspace → Run Workspace FileError Unit
unfolding put_revision
write_workspace_core r w = attempt io (put_revision r) w

unfoldable pub to_lower : ℕ → ℕ
to_lower b = if leb 65 b && leb b 90 then b + 32 else b

-- `name.eq_ignore_ascii_case(target) && name != target`
unfoldable pub collides : Bytes → Bytes → Bool
unfolding to_lower
collides target name =
    same_text (map to_lower name) (map to_lower target) && not (same_text name target)

unfoldable pub file_name : List Bytes → Bytes
file_name [] = []
file_name (c ∷ []) = c
file_name (c ∷ d ∷ ds) = file_name (d ∷ ds)

unfoldable pub parent : List Bytes → List Bytes
parent [] = []
parent (c ∷ []) = []
parent (c ∷ d ∷ ds) = c ∷ parent (d ∷ ds)

-- The scan of the parent's entries, where there is a parent.
unfoldable pub check_siblings :
    Bytes → Option (List Bytes) → World Workspace → Run Workspace FileError Unit
unfolding collides
check_siblings target none w = done tt w
check_siblings target (some names) w =
    bind (attempt io no_effect w)
      (λ _ w. ensure (not (any (collides target) names)) name_conflict w)

-- An upload: its path, the bytes of the temporary file, whether the lease is granted, whether there
-- is a `workspace.json`, and the entries that `read_dir` lists in the parent directory.
pub record Upload : Type 0 where
  pub path : AssetPath
  pub bytes : Bytes
  pub leased : Bool
  pub exists : Bool
  pub siblings : Option (List Bytes)

unfoldable pub carries_sub : Option AssetPath → Bool
carries_sub none = false
carries_sub (some sub) = true

-- From the bump of the revision on.
unfoldable pub commit_upload : List Bytes → Bytes → World Workspace → Run Workspace FileError ℕ
unfolding write_workspace_core create_dir_all rename_in publish_core bump_workspace_revision
commit_upload final_path bytes w = bind (cache_cell_for_dataset w) (λ id w.
    let next = bump_workspace_revision id in
    bind (write_workspace_core next w) (λ _ w. bind (create_dir_all (parent final_path) w) (λ _ w.
      bind (ensure (not (is_directory (w.state.content final_path))) io w) (λ _ w.
        bind (attempt io (rename_in final_path bytes) w) (λ _ w.
          bind (attempt io no_effect w)
            (λ _ w. done next (record w { state = publish_core next w.state })))))))

-- The result is the revision of the receipt.
unfoldable pub upload_workspace_file : Upload → World Workspace → Run Workspace FileError ℕ
unfolding commit_upload
upload_workspace_file up w = bind (ok_or invalid_name (parse_mutable_path up.path) w) (λ parsed w.
    bind (ensure (accepts_uploads parsed.0) invalid_name w) (λ _ w.
      bind (ensure (carries_sub parsed.1) invalid_name w) (λ _ w.
        bind (ensure (is_deep_enough parsed.0 up.path) invalid_name w) (λ _ w.
          bind (ensure up.leased job_conflict w) (λ _ w. bind (ensure up.exists not_found w) (λ _ w.
            bind (check_siblings (file_name (components up.path)) up.siblings w)
              (λ _ w. commit_upload (components up.path) up.bytes w)))))))

-- A delete: its path, whether the registry admits its job, whether there is a `workspace.json`, and
-- whether a job that writes into a log tree is active.
pub record Delete : Type 0 where
  pub path : AssetPath
  pub admitted : Bool
  pub exists : Bool
  pub producer_active : AssetTree → Bool

unfoldable pub write_tombstone : World Workspace → Run Workspace FileError Unit
write_tombstone w = bind (attempt io no_effect w) (λ _ w. attempt io no_effect w)

unfoldable pub stage_payload : List Bytes → World Workspace → Run Workspace FileError Unit
unfolding rename_out
stage_payload target w = bind (attempt io no_effect w) (λ _ w. bind (attempt io no_effect w) (λ _ w.
    bind (ensure (not (is_missing (w.state.content target))) io w) (λ _ w.
      bind (attempt io (rename_out target) w)
        (λ _ w. bind (attempt io no_effect w) (λ _ w. attempt io no_effect w)))))

-- The tree that a delete of all of it leaves.
unfoldable pub recreate :
    List Bytes → Option AssetPath → World Workspace → Run Workspace FileError Unit
unfolding create_dir_all
recreate target none w = bind (create_dir_all target w) (λ _ w. attempt io no_effect w)
recreate target (some sub) w = done tt w

-- Up to the admission of the job.
unfoldable pub admit_delete :
    Bool → AssetTree → Option AssetPath → World Workspace → Run Workspace FileError Unit
admit_delete admitted tree sub w = bind (attempt io no_effect w) (λ _ w.
    bind (ensure (not (is_missing (w.state.content (build_delete_target tree sub)))) io w) (λ _ w.
      bind (ok_or panicked (build_display_path tree sub) w)
        (λ _ w. ensure admitted job_conflict w)))

unfoldable pub start_async_tree_delete :
    Bool → AssetTree → Option AssetPath → World Workspace → Run Workspace FileError Unit
unfolding admit_delete stage_payload recreate write_tombstone write_workspace_core publish_core
    bump_workspace_revision
start_async_tree_delete admitted tree sub w = bind (admit_delete admitted tree sub w) (λ _ w.
    bind (cache_cell_for_dataset w) (λ id w.
      let next = bump_workspace_revision id in
      bind (write_tombstone w) (λ _ w. bind (write_workspace_core next w) (λ _ w.
        bind (stage_payload (build_delete_target tree sub) w) (λ _ w.
          bind (recreate (build_delete_target tree sub) sub w)
            (λ _ w. done tt (record w { state = publish_core next w.state })))))))

-- `validate_log_subpath` of the sub-path, if there is one.
unfoldable pub is_log_target : Option AssetPath → Bool
is_log_target none = true
is_log_target (some rel) = is_log_subpath rel

unfoldable pub start_async_log_delete :
    Bool → Bool → AssetTree → Option AssetPath → World Workspace → Run Workspace FileError Unit
unfolding admit_delete stage_payload recreate write_tombstone is_log_target
start_async_log_delete admitted producer_active tree sub w =
    bind (ensure (is_log_target sub) invalid_name w) (λ _ w.
      bind (ensure (not producer_active) job_conflict w) (λ _ w.
        bind (admit_delete admitted tree sub w) (λ _ w. bind (write_tombstone w) (λ _ w.
          bind (stage_payload (build_delete_target tree sub) w)
            (λ _ w. recreate (build_delete_target tree sub) sub w)))))

unfoldable pub delete_in :
    Delete → AssetTree → Option AssetPath → World Workspace → Run Workspace FileError Unit
unfolding start_async_tree_delete start_async_log_delete
delete_in d datasets sub w = start_async_tree_delete d.admitted datasets sub w
delete_in d converters sub w = start_async_tree_delete d.admitted converters sub w
delete_in d training_logs sub w =
    start_async_log_delete d.admitted (d.producer_active training_logs) training_logs sub w
delete_in d converter_logs sub w =
    start_async_log_delete d.admitted (d.producer_active converter_logs) converter_logs sub w

unfoldable pub start_workspace_asset_delete :
    Delete → World Workspace → Run Workspace FileError Unit
unfolding delete_in
start_workspace_asset_delete d w =
    bind (ok_or invalid_name (parse_mutable_path d.path) w)
      (λ parsed w. bind (ensure d.exists not_found w) (λ _ w. delete_in d parsed.0 parsed.1 w))
