-- ===== src/JobRegistry/State.antt =====
-- job_registry.rs: the state under the registry's mutex, and `prune_recent`.
-- The hash map of the entries is a list; its order stands for the map's order of iteration.
use al.Prelude.{
  ℕ, zero, suc, min, ◌+◌, ◌%◌, ◌^◌, Bool, false, not, Option, none, some, List, [], ◌∷◌, ◌++◌, leb,
  ◌==◌, if◌then◌else◌, length, get_elem?, take, drop,
}
use mathlib.Core.Option
use al.JobRegistry.Types.{
  JobId, JobReference, is_active, JobEntry, JobEvent, JobSnapshot, JobRegistryCfg, workspace_id,
}

pub record Counters : Type 0 where
  pub admission_conflicts_total : ℕ
  pub events_dropped_total : ℕ
  pub progress_throttled_total : ℕ
  pub log_lines_truncated_total : ℕ

-- `fetch_add(1)` on an `AtomicU64`
abbrev pub fetch_add_one : ℕ → ℕ
fetch_add_one n = (n + 1) % 2 ^ 64

pub record JobsState : Type 0 where
  pub order : List JobId
  pub entries : List JobEntry
  pub leases : List (ℕ × List JobReference)
  pub next_lease_id : ℕ

-- `broadcast` is what was handed to the channel, and `receivers` its receiver count.
pub record Registry : Type 0 where
  pub jobs : JobsState
  pub broadcast : List (JobId × JobEvent)
  pub receivers : ℕ
  pub counters : Counters
  pub cfg : JobRegistryCfg

-- `JobRegistry::new`
unfoldable pub new : JobRegistryCfg → Registry
new cfg = record {
  jobs = record { order = []; entries = []; leases = []; next_lease_id = 1 };
  broadcast = [];
  receivers = 0;
  counters = record {
    admission_conflicts_total = 0;
    events_dropped_total = 0;
    progress_throttled_total = 0;
    log_lines_truncated_total = 0;
  };
  cfg = cfg;
}

-- `entries.get`
unfoldable pub find_entry : JobId → List JobEntry → Option JobEntry
find_entry id [] = none
find_entry id (e ∷ es) = if e.job_id == id then some e else find_entry id es

-- What `entries.get_mut` writes.
unfoldable pub set_entry : JobId → JobEntry → List JobEntry → List JobEntry
set_entry id new_entry [] = []
set_entry id new_entry (e ∷ es) =
    if e.job_id == id then new_entry ∷ es else e ∷ set_entry id new_entry es

-- `entries.remove`
unfoldable pub remove_entry : JobId → List JobEntry → List JobEntry
remove_entry id [] = []
remove_entry id (e ∷ es) =
    let rest = remove_entry id es in if e.job_id == id then rest else e ∷ rest

-- `VecDeque::remove`
abbrev pub remove_at {ℓ} : {A : Type ℓ} → ℕ → List A → List A
remove_at i xs = take i xs ++ drop (suc i) xs

-- `matches!(entries.get(&id), Some(e) if !e.state.is_active())`
unfoldable pub is_terminal_entry : Option JobEntry → Bool
is_terminal_entry none = false
is_terminal_entry (some e) = not (is_active e.state)

-- The body of the loop for the id at index `i`.
unfoldable pub prune_at : ℕ → Option JobId → JobsState → JobsState
prune_at i none s = s
prune_at i (some id) s =
    if is_terminal_entry (find_entry id s.entries)
    then record s { order = remove_at i s.order; entries = remove_entry id s.entries }
    else s

-- The loop of `prune_recent` from the index `i` down.
unfoldable pub prune_from : ℕ → ℕ → JobsState → JobsState
prune_from max_recent zero s = s
prune_from max_recent (suc i) s =
    if leb (length s.entries) max_recent
    then s
    else prune_from max_recent i (prune_at i (get_elem? s.order i) s)

unfoldable pub prune_recent : JobsState → ℕ → JobsState
prune_recent s max_recent =
    if leb (length s.entries) max_recent then s else prune_from max_recent (length s.order) s

-- `JobEntry::snapshot`
unfoldable pub first_workspace : List JobReference → Option ℕ
first_workspace [] = none
first_workspace (r ∷ rs) = some (workspace_id r)

unfoldable pub entry_snapshot : JobEntry → JobSnapshot
entry_snapshot e = record {
  job_id = e.job_id;
  job_type = e.job_type;
  workspace_id = first_workspace e.references;
  target_path = e.target_path;
  state = e.state;
  progress = e.progress;
  result = e.result;
  last_seq = e.last_seq;
  updated_at = e.updated_at;
}

-- `JobRegistry::snapshot`
unfoldable pub snapshot : Registry → JobId → Option JobSnapshot
snapshot r id = Option.map entry_snapshot (find_entry id r.jobs.entries)

-- `order.iter().filter_map(..)`
unfoldable pub snapshots : List JobId → List JobEntry → List JobSnapshot
snapshots [] entries = []
snapshots (id ∷ ids) entries =
    let rest = snapshots ids entries in
    elim (find_entry id entries) [ none ↦ rest | some e ↦ entry_snapshot e ∷ rest ]

-- `JobRegistry::recent`
unfoldable pub recent : Registry → ℕ → List JobSnapshot
recent r limit = snapshots (take (min limit r.cfg.max_recent_jobs) r.jobs.order) r.jobs.entries

unfoldable pub count_active : List JobEntry → ℕ
count_active [] = 0
count_active (e ∷ es) = let rest = count_active es in if is_active e.state then suc rest else rest

-- `JobRegistryCounters`
pub record RegistryCounters : Type 0 where
  pub totals : Counters
  pub jobs_running : ℕ
  pub jobs_retained : ℕ

-- `JobRegistry::counters`
unfoldable pub counters : Registry → RegistryCounters
counters r = record {
  totals = r.counters;
  jobs_running = count_active r.jobs.entries;
  jobs_retained = length r.jobs.entries;
}
