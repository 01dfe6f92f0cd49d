-- ===== src/JobRegistry/Runs.antt =====
-- job_registry.rs: the sequences of operations that take the registry's lock in turn.
use al.Prelude.{
  ℕ, ◌≡◌, sym, false, Option, List, arith, Bool-cases, Option-cases, inl, inr, leb, subst,
}
use al.JobRegistry.Types.{
  JobId, JobType, JobReference, TargetPath, JobState, is_active, JobResult, JobProgress, JobEntry,
  JobRegistryCfg, is_workspace_delete,
}
use al.JobRegistry.State.{Registry, new, find_entry}
use al.JobRegistry.Admission.{
  slot_cap, slot_predicate, count_slot, count_conflict, new_entry, insert_entry, admit, try_acquire,
  grant_lease, references_conflict, lease_references_conflict, try_acquire_lease, release_lease,
}
use al.JobRegistry.Events.{update_progress, append_log, terminate}
use al.JobRegistry.Shrinks.{Shrinks-prune_recent, leases-prune_recent}
use al.JobRegistry.Narrows.{Narrows, Narrows-update_progress, Narrows-append_log, Narrows-terminate}
use al.JobRegistry.Exclusion.{
  Exclusive, Exclusive-Shrinks, Exclusive-insert, Exclusive-lease, Exclusive-remove_lease,
}
use al.JobRegistry.Caps.{Capped, Capped-Shrinks, Capped-insert}

-- One operation of the registry, with any arguments. A subscriber that comes or goes sets the
-- channel's count of receivers.
pub data Step (r : Registry) : Registry → Type 0 where
  acquire :
      (job_type : JobType) (references : List JobReference) (target_path : Option TargetPath)
      (fresh : JobId) (at : ℕ)
      → Step r (try_acquire r job_type references target_path fresh at).1
  acquire_lease : (references : List JobReference) → Step r (try_acquire_lease r references).1
  release : (id : ℕ) → Step r (release_lease r id)
  progress : (id : JobId) (p : JobProgress) (now at : ℕ) → Step r (update_progress r id p now at)
  log : (id : JobId) (message : List ℕ) (at : ℕ) → Step r (append_log r id message at)
  finish :
      (id : JobId) (state : JobState) (result : Option JobResult) (at : ℕ)
      → is_active state ≡ false
      → Step r (terminate r id state result at)
  listeners : (n : ℕ) → Step r (record r { receivers = n })

pub data Run (r : Registry) : Registry → Type 0 where
  start : Run r r
  then_step : {s t : Registry} → Run r s → Step s t → Run r t

pub record WellFormed (r : Registry) : Type 0 where
  pub exclusive : Exclusive r.jobs.entries r.jobs.leases
  pub capped : Capped r.cfg r.jobs.entries

new-WellFormed : (cfg : JobRegistryCfg) → WellFormed (new cfg)
unfolding new find_entry count_slot
new-WellFormed cfg = record {
  exclusive = record {
    apart = λ i j e d fe fd ne ae ad ws re rd. cc;
    unleased = λ i e fe ae del ws re. tt;
  };
  capped = record { slot = λ t. omega arith };
}

Narrows-WellFormed : (r r' : Registry) → Narrows r r' → WellFormed r → WellFormed r'
Narrows-WellFormed r r' n w = record {
  exclusive =
      subst (Exclusive r'.jobs.entries) (sym n.leases)
        (Exclusive-Shrinks r.jobs.entries r'.jobs.entries r.jobs.leases n.shrinks w.exclusive);
  capped =
      subst (λ c. Capped c r'.jobs.entries) (sym n.cfg)
        (Capped-Shrinks r.cfg r.jobs.entries r'.jobs.entries n.shrinks w.capped);
}

-- A refusal only counts the conflict.
count_conflict-WellFormed : (r : Registry) → WellFormed r → WellFormed (count_conflict r)
unfolding count_conflict
count_conflict-WellFormed r w = record { exclusive = w.exclusive; capped = w.capped }

admit-WellFormed :
    (r : Registry) (e : JobEntry) (fresh : JobId)
    → leb (slot_cap r.cfg e.job_type) (count_slot (slot_predicate e.job_type) r.jobs.entries)
      ≡ false
    → WellFormed r
    → WellFormed
        (admit e
          (references_conflict (is_workspace_delete e.job_type) e.references fresh r.jobs)
          r).1
unfolding admit insert_entry
admit-WellFormed r e fresh room w =
    elim (Option-cases
      (references_conflict (is_workspace_delete e.job_type) e.references fresh r.jobs)) [
        | inl clear ↦
            rw (clear, admit)
              (let kept = Shrinks-prune_recent (insert_entry e r.jobs) r.cfg.max_recent_jobs in
                record {
                  exclusive =
                      subst (Exclusive _)
                        (sym (leases-prune_recent (insert_entry e r.jobs) r.cfg.max_recent_jobs))
                        (Exclusive-Shrinks _ _ _ kept
                          (Exclusive-insert e fresh r.jobs clear w.exclusive));
                  capped =
                      Capped-Shrinks r.cfg _ _ kept (Capped-insert r.cfg e r.jobs room w.capped);
                })
        | inr (conflict, h) ↦ rw (h, admit) (count_conflict-WellFormed r w)
      ]

try_acquire-WellFormed :
    (r : Registry) (job_type : JobType) (references : List JobReference)
    (target_path : Option TargetPath) (fresh : JobId) (at : ℕ)
    → WellFormed r
    → WellFormed (try_acquire r job_type references target_path fresh at).1
unfolding try_acquire
try_acquire-WellFormed r t refs path fresh at w =
    elim (Bool-cases (leb (slot_cap r.cfg t) (count_slot (slot_predicate t) r.jobs.entries))) [
      | inl full ↦ rw full (count_conflict-WellFormed r w)
      | inr room ↦
          rw room
            (unfold new_entry in admit-WellFormed r (new_entry fresh t refs path at) fresh room w)
    ]

try_acquire_lease-WellFormed :
    (r : Registry) (references : List JobReference)
    → WellFormed r
    → WellFormed (try_acquire_lease r references).1
unfolding try_acquire_lease grant_lease
try_acquire_lease-WellFormed r refs w =
    elim (Option-cases (lease_references_conflict refs r.jobs.entries)) [
      | inl clear ↦
          rw (clear, grant_lease)
            (record {
              exclusive = Exclusive-lease r.jobs.entries _ r.jobs.next_lease_id refs clear (
                  Exclusive-remove_lease r.jobs.entries r.jobs.leases r.jobs.next_lease_id
                    w.exclusive);
              capped = w.capped;
            })
      | inr (conflict, h) ↦ rw (h, grant_lease) (count_conflict-WellFormed r w)
    ]

Step-WellFormed : (r s : Registry) → Step r s → WellFormed r → WellFormed s
unfolding release_lease
Step-WellFormed r s (acquire t refs path fresh at) w =
    try_acquire-WellFormed r t refs path fresh at w
Step-WellFormed r s (acquire_lease refs) w = try_acquire_lease-WellFormed r refs w
Step-WellFormed r s (release id) w = record {
  exclusive = Exclusive-remove_lease r.jobs.entries r.jobs.leases id w.exclusive;
  capped = w.capped;
}
Step-WellFormed r s (progress id p now at) w =
    Narrows-WellFormed r _ (Narrows-update_progress r id p now at) w
Step-WellFormed r s (log id message at) w =
    Narrows-WellFormed r _ (Narrows-append_log r id message at) w
Step-WellFormed r s (finish id state result at ends) w =
    Narrows-WellFormed r _ (Narrows-terminate r id state result at ends) w
Step-WellFormed r s (listeners n) w = record { exclusive = w.exclusive; capped = w.capped }

-- After any sequence of operations from an empty registry, in any order and by any threads, the
-- entries and leases keep the exclusion of a `WorkspaceDelete` and the caps of the slots.
pub Run-WellFormed : (cfg : JobRegistryCfg) (r : Registry) → Run (new cfg) r → WellFormed r
Run-WellFormed cfg r start = new-WellFormed cfg
Run-WellFormed cfg r (then_step {s = s} run step) =
    Step-WellFormed s r step (Run-WellFormed cfg s run)
