-- ===== src/StagedDelete/Tombstones.antt =====
-- modules/file_mgr/staging.rs, recovery.rs: the tombstones, and which of them a scope drains.
use al.Prelude.{ℕ, ◌≡◌, refl, Bool, true, false, ◌&&◌, Option, List, [], ◌∷◌, ◌++◌, ◌==◌}
use al.Prelude.Utf8.{ascii}

-- The text of an id.
abbrev pub JobId : Type 0
JobId = List ℕ

pub data DeleteTombstone : Type 0 where
  dataset : JobId → ℕ → Option (List ℕ) → ℕ → ℕ → DeleteTombstone
  converter : JobId → ℕ → Option (List ℕ) → ℕ → ℕ → DeleteTombstone
  training_logs : JobId → ℕ → Option (List ℕ) → ℕ → DeleteTombstone
  converter_logs : JobId → ℕ → Option (List ℕ) → ℕ → DeleteTombstone
  workspace : JobId → ℕ → ℕ → DeleteTombstone

unfoldable pub job_id : DeleteTombstone → JobId
job_id (dataset job ws path revision created_at) = job
job_id (converter job ws path revision created_at) = job
job_id (training_logs job ws path created_at) = job
job_id (converter_logs job ws path created_at) = job
job_id (workspace job ws created_at) = job

abbrev pub dataset_tombstone_prefix : List ℕ
dataset_tombstone_prefix = ascii "delete-assets-"

abbrev pub converter_tombstone_prefix : List ℕ
converter_tombstone_prefix = ascii "delete-converters-"

abbrev pub training_logs_tombstone_prefix : List ℕ
training_logs_tombstone_prefix = ascii "delete-training-logs-"

abbrev pub converter_logs_tombstone_prefix : List ℕ
converter_logs_tombstone_prefix = ascii "delete-converter-logs-"

abbrev pub workspace_tombstone_prefix : List ℕ
workspace_tombstone_prefix = ascii "delete-workspace-"

-- `DeleteTombstone::prefix`
unfoldable pub prefix : DeleteTombstone → List ℕ
prefix (dataset job ws path revision created_at) = dataset_tombstone_prefix
prefix (converter job ws path revision created_at) = converter_tombstone_prefix
prefix (training_logs job ws path created_at) = training_logs_tombstone_prefix
prefix (converter_logs job ws path created_at) = converter_logs_tombstone_prefix
prefix (workspace job ws created_at) = workspace_tombstone_prefix

unfoldable pub filename : DeleteTombstone → List ℕ
unfolding prefix job_id
filename t = prefix t ++ job_id t ++ ascii ".json"

unfoldable pub stage_dir_name : DeleteTombstone → List ℕ
unfolding prefix job_id
stage_dir_name t = prefix t ++ job_id t

-- `StagingScope`, and the staging directory of the root.
pub data Scope : Type 0 where
  datasets converters training converting workspaces : Scope

unfoldable pub scope_prefix : Scope → List ℕ
scope_prefix datasets = dataset_tombstone_prefix
scope_prefix converters = converter_tombstone_prefix
scope_prefix training = training_logs_tombstone_prefix
scope_prefix converting = converter_logs_tombstone_prefix
scope_prefix workspaces = workspace_tombstone_prefix

-- `str::starts_with`
unfoldable pub starts_with : List ℕ → List ℕ → Bool
starts_with [] s = true
starts_with (p ∷ ps) [] = false
starts_with (p ∷ ps) (c ∷ cs) = p == c && starts_with ps cs

-- Whether `walk_staging` of a scope takes a name for one of its files, but for the extension.
unfoldable pub is_of : Scope → List ℕ → Bool
unfolding starts_with scope_prefix
is_of scope name = starts_with (scope_prefix scope) name

-- The scope whose deletes leave a tombstone.
unfoldable pub scope_of : DeleteTombstone → Scope
scope_of (dataset job ws path revision created_at) = datasets
scope_of (converter job ws path revision created_at) = converters
scope_of (training_logs job ws path created_at) = training
scope_of (converter_logs job ws path created_at) = converting
scope_of (workspace job ws created_at) = workspaces

unfoldable pub same_scope : Scope → Scope → Bool
same_scope datasets datasets = true
same_scope converters converters = true
same_scope training training = true
same_scope converting converting = true
same_scope workspaces workspaces = true
same_scope _ _ = false

-- A scope takes a tombstone's file, and the stage directory, for its own exactly if it is: no prefix
-- begins the names of another scope, whatever the id.
pub is_of-scope_of :
    (scope : Scope) (t : DeleteTombstone)
    → (is_of scope (filename t) ≡ same_scope scope (scope_of t))
      × (is_of scope (stage_dir_name t) ≡ same_scope scope (scope_of t))
unfolding is_of filename stage_dir_name scope_of same_scope
is_of-scope_of datasets (dataset j w p r c) = (refl, refl)
is_of-scope_of datasets (converter j w p r c) = (refl, refl)
is_of-scope_of datasets (training_logs j w p c) = (refl, refl)
is_of-scope_of datasets (converter_logs j w p c) = (refl, refl)
is_of-scope_of datasets (workspace j w c) = (refl, refl)
is_of-scope_of converters (dataset j w p r c) = (refl, refl)
is_of-scope_of converters (converter j w p r c) = (refl, refl)
is_of-scope_of converters (training_logs j w p c) = (refl, refl)
is_of-scope_of converters (converter_logs j w p c) = (refl, refl)
is_of-scope_of converters (workspace j w c) = (refl, refl)
is_of-scope_of training (dataset j w p r c) = (refl, refl)
is_of-scope_of training (converter j w p r c) = (refl, refl)
is_of-scope_of training (training_logs j w p c) = (refl, refl)
is_of-scope_of training (converter_logs j w p c) = (refl, refl)
is_of-scope_of training (workspace j w c) = (refl, refl)
is_of-scope_of converting (dataset j w p r c) = (refl, refl)
is_of-scope_of converting (converter j w p r c) = (refl, refl)
is_of-scope_of converting (training_logs j w p c) = (refl, refl)
is_of-scope_of converting (converter_logs j w p c) = (refl, refl)
is_of-scope_of converting (workspace j w c) = (refl, refl)
is_of-scope_of workspaces (dataset j w p r c) = (refl, refl)
is_of-scope_of workspaces (converter j w p r c) = (refl, refl)
is_of-scope_of workspaces (training_logs j w p c) = (refl, refl)
is_of-scope_of workspaces (converter_logs j w p c) = (refl, refl)
is_of-scope_of workspaces (workspace j w c) = (refl, refl)
