-- ===== src/JobRegistry/Admission.antt =====
-- job_registry.rs: admission of jobs and of bare leases.
-- `fresh` is the id that `JobId::new` draws, and `at` what `now_rfc3339` returns.
use al.Prelude.{
  ℕ, suc, ◌+◌, ◌%◌, ◌^◌, Bool, false, ◌&&◌, ◌||◌, Option, none, some, List, [], ◌∷◌, leb, ◌==◌,
  if◌then◌else◌, any,
}
use al.JobRegistry.Types.{
  JobId, WorkspaceId, TargetPath, JobType, train, convert, workspace_delete, is_train, is_convert,
  is_delete_subtype, is_workspace_delete, JobReference, workspace_id, running, is_active, JobEntry,
  RegistryConflict, another_train_running, job_conflict, JobRegistryCfg,
}
use al.JobRegistry.State.{fetch_add_one, JobsState, Registry, remove_entry, prune_recent}

-- `references.iter().any(|r| r.workspace_id() == workspace)`
unfoldable pub refers_to : WorkspaceId → List JobReference → Bool
refers_to ws refs = any (λ r. workspace_id r == ws) refs

unfoldable pub job_conflicts_with_existing_job :
    Bool → WorkspaceId → JobType → List JobReference → Bool
job_conflicts_with_existing_job new_is_workspace_delete new_ws existing_type existing_refs =
    if refers_to new_ws existing_refs
    then new_is_workspace_delete || is_workspace_delete existing_type
    else false

unfoldable pub job_conflicts_with_existing_lease : Bool → WorkspaceId → List JobReference → Bool
job_conflicts_with_existing_lease new_is_workspace_delete new_ws lease_refs =
    if new_is_workspace_delete then refers_to new_ws lease_refs else false

unfoldable pub lease_conflicts_with_existing_job : WorkspaceId → JobType → List JobReference → Bool
lease_conflicts_with_existing_job new_ws existing_type existing_refs =
    if is_workspace_delete existing_type then refers_to new_ws existing_refs else false

-- The cap of the job type's slot, and the test for the jobs that share the slot.
unfoldable pub slot_cap : JobRegistryCfg → JobType → ℕ
slot_cap cfg train = cfg.max_train_jobs
slot_cap cfg convert = cfg.max_convert_jobs
slot_cap cfg _ = cfg.max_delete_jobs

unfoldable pub slot_predicate : JobType → JobType → Bool
slot_predicate train = is_train
slot_predicate convert = is_convert
slot_predicate _ = is_delete_subtype

unfoldable pub holds_slot : (JobType → Bool) → JobEntry → Bool
holds_slot in_slot e = is_active e.state && in_slot e.job_type

-- `entries.values().filter(..).count()`
unfoldable pub count_slot : (JobType → Bool) → List JobEntry → ℕ
count_slot in_slot [] = 0
count_slot in_slot (e ∷ es) =
    let rest = count_slot in_slot es in if holds_slot in_slot e then suc rest else rest

-- `entries.values().find(..)`
unfoldable pub find_slot : (JobType → Bool) → List JobEntry → Option JobEntry
find_slot in_slot [] = none
find_slot in_slot (e ∷ es) = if holds_slot in_slot e then some e else find_slot in_slot es

-- The error of a full slot.
unfoldable pub cap_conflict : JobType → JobId → Option JobEntry → RegistryConflict
cap_conflict train fresh found = another_train_running
cap_conflict job_type fresh (some e) = job_conflict e.job_id e.job_type
cap_conflict job_type fresh none = job_conflict fresh job_type

-- The first active entry that the test holds of.
unfoldable pub find_conflict :
    (JobType → List JobReference → Bool) → List JobEntry → Option RegistryConflict
find_conflict conflicts [] = none
find_conflict conflicts (e ∷ es) =
    if is_active e.state && conflicts e.job_type e.references
    then some (job_conflict e.job_id e.job_type)
    else find_conflict conflicts es

-- The loop over the leases, for a new `WorkspaceDelete`.
unfoldable pub lease_conflict :
    Bool → WorkspaceId → JobId → List (ℕ × List JobReference) → Option RegistryConflict
lease_conflict new_is_workspace_delete new_ws fresh [] = none
lease_conflict new_is_workspace_delete new_ws fresh ((id, refs) ∷ leases) =
    if new_is_workspace_delete
      && job_conflicts_with_existing_lease new_is_workspace_delete new_ws refs
    then some (job_conflict fresh workspace_delete)
    else lease_conflict new_is_workspace_delete new_ws fresh leases

unfoldable pub or_else {ℓ} : {A : Type ℓ} → Option A → Option A → Option A
or_else (some a) b = some a
or_else none b = b

-- The conflicts of one new reference: with a job, then with a lease.
unfoldable pub reference_conflict : Bool → WorkspaceId → JobId → JobsState → Option RegistryConflict
reference_conflict new_is_workspace_delete new_ws fresh s =
    or_else
      (find_conflict (job_conflicts_with_existing_job new_is_workspace_delete new_ws) s.entries)
      (lease_conflict new_is_workspace_delete new_ws fresh s.leases)

-- The loop over the new references.
unfoldable pub references_conflict :
    Bool → List JobReference → JobId → JobsState → Option RegistryConflict
references_conflict new_is_workspace_delete [] fresh s = none
references_conflict new_is_workspace_delete (r ∷ rs) fresh s =
    or_else (reference_conflict new_is_workspace_delete (workspace_id r) fresh s)
      (references_conflict new_is_workspace_delete rs fresh s)

pub data Admission : Type 0 where
  admitted : JobId → Admission
  refused : RegistryConflict → Admission

unfoldable pub count_conflict : Registry → Registry
count_conflict r = record r {
  counters = record r.counters {
    admission_conflicts_total = fetch_add_one r.counters.admission_conflicts_total;
  };
}

-- The entry of an admitted job.
unfoldable pub new_entry : JobId → JobType → List JobReference → Option TargetPath → ℕ → JobEntry
new_entry fresh job_type references target_path at = record {
  job_id = fresh;
  job_type = job_type;
  references = references;
  target_path = target_path;
  state = running;
  progress = none;
  result = none;
  last_seq = 0;
  updated_at = at;
  ring = [];
  last_progress_at = none;
}

unfoldable pub insert_entry : JobEntry → JobsState → JobsState
insert_entry e s = record s {
  order = e.job_id ∷ s.order;
  entries = e ∷ remove_entry e.job_id s.entries;
}

-- What follows the checks.
unfoldable pub admit : JobEntry → Option RegistryConflict → Registry → Admission × Registry
admit e (some conflict) r = (refused conflict, count_conflict r)
admit e none r = (
  admitted e.job_id,
  record r { jobs = prune_recent (insert_entry e r.jobs) r.cfg.max_recent_jobs },
)

-- `JobRegistry::try_acquire`
unfoldable pub try_acquire :
    Registry → JobType → List JobReference → Option TargetPath → JobId → ℕ → Admission × Registry
try_acquire r job_type references target_path fresh at =
    let in_slot = slot_predicate job_type in
    if leb (slot_cap r.cfg job_type) (count_slot in_slot r.jobs.entries)
    then (
      refused (cap_conflict job_type fresh (find_slot in_slot r.jobs.entries)),
      count_conflict r,
    )
    else admit (new_entry fresh job_type references target_path at)
        (references_conflict (is_workspace_delete job_type) references fresh r.jobs) r

pub data LeaseAdmission : Type 0 where
  leased : ℕ → LeaseAdmission
  refused : RegistryConflict → LeaseAdmission

-- The loops over the references of a lease.
unfoldable pub lease_references_conflict :
    List JobReference → List JobEntry → Option RegistryConflict
lease_references_conflict [] entries = none
lease_references_conflict (r ∷ rs) entries =
    or_else (find_conflict (lease_conflicts_with_existing_job (workspace_id r)) entries)
      (lease_references_conflict rs entries)

-- `leases.remove`
unfoldable pub remove_lease : ℕ → List (ℕ × List JobReference) → List (ℕ × List JobReference)
remove_lease id [] = []
remove_lease id ((j, refs) ∷ leases) =
    let rest = remove_lease id leases in if j == id then rest else (j, refs) ∷ rest

unfoldable pub grant_lease :
    List JobReference → Option RegistryConflict → Registry → LeaseAdmission × Registry
grant_lease references (some conflict) r = (refused conflict, count_conflict r)
grant_lease references none r = (
  leased r.jobs.next_lease_id,
  record r {
    jobs = record r.jobs {
      next_lease_id = (r.jobs.next_lease_id + 1) % 2 ^ 64;
      leases = (r.jobs.next_lease_id, references) ∷ remove_lease r.jobs.next_lease_id r.jobs.leases;
    };
  },
)

-- `JobRegistry::try_acquire_lease`
unfoldable pub try_acquire_lease : Registry → List JobReference → LeaseAdmission × Registry
try_acquire_lease r references =
    grant_lease references (lease_references_conflict references r.jobs.entries) r

-- `release_lease`, which `LeaseGuard::drop` calls.
unfoldable pub release_lease : Registry → ℕ → Registry
release_lease r id = record r { jobs = record r.jobs { leases = remove_lease id r.jobs.leases } }

-- `has_active_for`
unfoldable pub has_active_for : Registry → WorkspaceId → (JobType → Bool) → Bool
has_active_for r ws is_type =
    any (λ e. is_active e.state && is_type e.job_type && refers_to ws e.references) r.jobs.entries

unfoldable pub has_active_train_for : Registry → WorkspaceId → Bool
has_active_train_for r ws = has_active_for r ws is_train

unfoldable pub has_active_convert_for : Registry → WorkspaceId → Bool
has_active_convert_for r ws = has_active_for r ws is_convert
