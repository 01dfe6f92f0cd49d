-- ===== src/HeadRotation.antt =====
-- modules/file_mgr/head_rotation.rs: publication and deletion of trained heads. The directory of a
-- workspace is a record; each call of the file system is one step that succeeds, fails before or
-- after its effect, or at which the process dies. A step that is done is taken to be durable.
pub mod Triples
pub mod Sound
pub mod Commit
pub mod Publish
pub mod Delete
pub mod Succeeds
pub mod Sessions
mod Tests
use al.Prelude.{
  ℕ, ◌+◌, ◌%◌, ◌^◌, Bool, true, false, not, Option, none, some, List, [], ◌∷◌, ◌==◌, if◌then◌else◌,
  length, take, drop, any,
}

abbrev pub HeadId : Type 0
HeadId = ℕ

pub record HeadRecord : Type 0 where
  pub head_id : HeadId
  pub workspace_revision : ℕ
  pub sha256 : List ℕ
  pub n_classes : ℕ
  pub size_bytes : ℕ
  pub created_at : ℕ

pub record HeadManifest : Type 0 where
  pub head_id : HeadId
  pub workspace_id : ℕ
  pub workspace_revision : ℕ
  pub sha256 : List ℕ
  pub n_classes : ℕ
  pub size_bytes : ℕ
  pub created_at : ℕ
  pub labels : List (List ℕ)

abbrev pub max_heads_per_workspace : ℕ
max_heads_per_workspace = 2

-- `heads/<id>.mpk`, `heads/<id>.json`, the staged tempfile, `heads.json`, and the count in
-- `workspace.json`. The bytes of an artifact are a number.
pub record Disk : Type 0 where
  pub mpks : HeadId → Option ℕ
  pub manifests : HeadId → Option HeadManifest
  pub staged : Option ℕ
  pub index : List HeadRecord
  pub head_count : ℕ

-- `WorkspaceCacheCell`
pub record Cache : Type 0 where
  pub heads : List HeadRecord
  pub head_count : ℕ

-- What becomes of a call of the file system.
pub data Fate : Type 0 where
  succeeds fails_before fails_after crashes : Fate

-- `fates` are those of the calls to come; beyond them all succeed.
pub record World : Type 0 where
  pub disk : Disk
  pub cache : Cache
  pub fates : List Fate

pub data FileError : Type 0 where
  head_id_mismatch tempfile_missing io not_found job_conflict asset_not_found : FileError

pub data Run (A : Type 0) : Type 0 where
  done : A → World → Run A
  failed : FileError → World → Run A
  crashed : World → Run A

unfoldable pub bind : {A B : Type 0} → Run A → (A → World → Run B) → Run B
bind (done a w) next = next a w
bind (failed e w) next = failed e w
bind (crashed w) next = crashed w

-- A call whose failure is returned.
unfoldable pub attempt_with : (Disk → Disk) → World → List Fate → Run Unit
attempt_with effect w [] = done tt (record w { disk = effect w.disk })
attempt_with effect w (succeeds ∷ fates) =
    done tt (record w { disk = effect w.disk; fates = fates })
attempt_with effect w (fails_before ∷ fates) = failed io (record w { fates = fates })
attempt_with effect w (fails_after ∷ fates) =
    failed io (record w { disk = effect w.disk; fates = fates })
attempt_with effect w (crashes ∷ fates) = crashed (record w { fates = fates })

unfoldable pub attempt : (Disk → Disk) → World → Run Unit
attempt effect w = attempt_with effect w w.fates

-- A call whose failure is only logged.
unfoldable pub best_effort_with : (Disk → Disk) → World → List Fate → Run Unit
best_effort_with effect w [] = done tt (record w { disk = effect w.disk })
best_effort_with effect w (succeeds ∷ fates) =
    done tt (record w { disk = effect w.disk; fates = fates })
best_effort_with effect w (fails_before ∷ fates) = done tt (record w { fates = fates })
best_effort_with effect w (fails_after ∷ fates) =
    done tt (record w { disk = effect w.disk; fates = fates })
best_effort_with effect w (crashes ∷ fates) = crashed (record w { fates = fates })

unfoldable pub best_effort : (Disk → Disk) → World → Run Unit
best_effort effect w = best_effort_with effect w w.fates

unfoldable pub put : {A : Type 0} → (HeadId → Option A) → HeadId → Option A → HeadId → Option A
put files id content j = if id == j then content else files j

-- `create_dir_all`, `fsync_dir` and `read_workspace_core` change nothing here.
unfoldable pub no_effect : Disk → Disk
no_effect d = d

unfoldable pub write_manifest : HeadId → HeadManifest → Disk → Disk
write_manifest id m d = record d { manifests = put d.manifests id (some m) }

-- The rename of the staged tempfile to `heads/<id>.mpk`.
unfoldable pub rename_mpk : HeadId → Disk → Disk
rename_mpk id d = record d { mpks = put d.mpks id d.staged; staged = none }

unfoldable pub write_head_index : List HeadRecord → Disk → Disk
write_head_index next d = record d { index = next }

-- `head_count = next_index.heads.len() as u8`
unfoldable pub write_workspace_core : ℕ → Disk → Disk
write_workspace_core count d = record d { head_count = count }

unfoldable pub remove_mpk : HeadId → Disk → Disk
remove_mpk id d = record d { mpks = put d.mpks id none }

unfoldable pub remove_manifest : HeadId → Disk → Disk
remove_manifest id d = record d { manifests = put d.manifests id none }

-- The files of a head that left the index, best effort, and then `fsync_dir`.
unfoldable pub remove_files : Option HeadId → World → Run Unit
remove_files none w = done tt w
remove_files (some id) w =
    bind (best_effort (remove_mpk id) w)
      (λ _ w. bind (best_effort (remove_manifest id) w) (λ _ w. best_effort no_effect w))

-- `publish_heads` and `publish_core`
unfoldable pub publish_cache : List HeadRecord → ℕ → World → World
publish_cache next count w = record w { cache = record { heads = next; head_count = count } }

-- From the index on, which is the point of publication.
unfoldable pub commit : List HeadRecord → Option HeadId → World → Run Unit
commit next removed w =
    let count = length next % 2 ^ 8 in
    bind (attempt (write_head_index next) w) (λ _ w. bind (attempt no_effect w) (λ _ w.
      bind (attempt (write_workspace_core count) w)
        (λ _ w. remove_files removed (publish_cache next count w))))

pub record PendingHead : Type 0 where
  pub head_id : HeadId
  pub manifest : HeadManifest

unfoldable pub new_record : HeadManifest → HeadRecord
new_record m = record {
  head_id = m.head_id;
  workspace_revision = m.workspace_revision;
  sha256 = m.sha256;
  n_classes = m.n_classes;
  size_bytes = m.size_bytes;
  created_at = m.created_at;
}

unfoldable pub first_id : List HeadRecord → Option HeadId
first_id [] = none
first_id (r ∷ rs) = some r.head_id

unfoldable pub is_some : {A : Type 0} → Option A → Bool
is_some none = false
is_some (some a) = true

-- The two files of the new head, before the index.
unfoldable pub place_files : PendingHead → World → Run Unit
place_files pending w = bind (attempt no_effect w) (λ _ w.
    bind (attempt (write_manifest pending.head_id pending.manifest) w)
      (λ _ w. bind (attempt (rename_mpk pending.head_id) w) (λ _ w. attempt no_effect w)))

-- The index with the new head in front, cut to the cap, and the head that leaves it.
unfoldable pub publish_over : PendingHead → List HeadRecord → World → Run (Option HeadId)
publish_over pending prev_heads w =
    let records = new_record pending.manifest ∷ prev_heads in
    let displaced = first_id (drop max_heads_per_workspace records) in
    bind (commit (take max_heads_per_workspace records) displaced w) (λ _ w. done displaced w)

-- `publish_trained_head` returns the displaced head.
unfoldable pub publish_trained_head : PendingHead → World → Run (Option HeadId)
publish_trained_head pending w =
    if not (pending.manifest.head_id == pending.head_id)
    then failed head_id_mismatch w
    else if not (is_some w.disk.staged)
    then failed tempfile_missing w
    else bind (place_files pending w) (λ _ w. publish_over pending w.cache.heads w)

-- The records of the other heads.
unfoldable pub without : HeadId → List HeadRecord → List HeadRecord
without id [] = []
without id (r ∷ rs) = let rest = without id rs in if r.head_id == id then rest else r ∷ rest

-- `delete_head`; `exists` is whether the workspace has a core file, and `admitted` whether the job
-- registry grants the lease.
unfoldable pub delete_head : Bool → Bool → HeadId → World → Run Unit
delete_head exists admitted id w =
    if not exists
    then failed not_found w
    else if not admitted
    then failed job_conflict w
    else if not (any (λ r. r.head_id == id) w.cache.heads)
    then failed asset_not_found w
    else commit (without id w.cache.heads) (some id) w
