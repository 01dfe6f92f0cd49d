-- ===== src/JobRegistry/Ring/Kept.antt =====
-- job_registry.rs: every operation keeps the rings.
use al.Prelude.{
  ℕ, ◌≡◌, refl, sym, Option, none, some, List, arith, Bool-cases, Option-cases, inl, inr, leb, ltb,
  All, subst, length,
}
use al.JobRegistry.Types.{
  JobId, JobType, JobReference, TargetPath, JobState, is_active, JobResult, JobProgress, JobEntry,
  JobEvent, JobRegistryCfg, RegistryConflict,
}
use al.JobRegistry.State.{Registry, new, find_entry}
use al.JobRegistry.Admission.{
  slot_cap, slot_predicate, count_slot, count_conflict, new_entry, insert_entry, admit, try_acquire,
  grant_lease, lease_references_conflict, try_acquire_lease, release_lease,
}
use al.JobRegistry.Events.{
  next_seq, emit, with_entry, is_throttled, progress_entry, update_progress, count_truncated,
  log_entry, append_log, cap_line, ended_entry, terminal_event, prune_jobs, terminate_entry,
  terminate,
}
use al.JobRegistry.Narrows.{cfg-count_truncated}
use al.JobRegistry.Everywhere.{All-find, All-set, All-remove, All-prune_recent, with_line-keeps}
use al.JobRegistry.Ring.{Numbered, Ringed, Ringed-push_event}
use al.JobRegistry.Runs.{
  Step, acquire, acquire_lease, release, progress, log, finish, listeners, Run, start, then_step,
}

abbrev pub Rings : Registry → Type 0
Rings r = All (Ringed r.cfg.max_job_event_ring) r.jobs.entries

Rings-emit :
    (r : Registry) (id : JobId) (e : JobEntry) (event : JobEvent)
    → Ringed r.cfg.max_job_event_ring e
    → event.seq ≡ next_seq e.last_seq
    → Rings r
    → Rings (emit r id e event)
unfolding emit
Rings-emit r id e event h q all =
    All-set _ id r.jobs.entries _ all
      (Ringed-push_event r.cfg.max_job_event_ring e _ event h q refl refl)

Rings-with_entry :
    (r counted : Registry) (id : JobId) (body : JobEntry → Registry)
    → Rings r
    → Rings counted
    → ((e : JobEntry) → Ringed r.cfg.max_job_event_ring e → Rings (body e))
    → Rings (with_entry (find_entry id r.jobs.entries) counted body)
unfolding with_entry
Rings-with_entry r counted id body all n b = elim (Option-cases (find_entry id r.jobs.entries)) [
  | inl h ↦ rw (h, with_entry) n
  | inr (e, h) ↦ rw (h, with_entry) (b e (All-find _ id r.jobs.entries e all h))
]

-- Fields that the ring does not depend on.
Ringed-same :
    (m : ℕ) (e e' : JobEntry)
    → e'.ring ≡ e.ring
    → e'.last_seq ≡ e.last_seq
    → Ringed m e
    → Ringed m e'
Ringed-same m e e' p q h = record {
  bound = rw p h.bound;
  fits = rw (p, q) h.fits;
  started = rw (p, q) h.started;
  numbered = rw (p, q) h.numbered;
}

Rings-update_progress :
    (r : Registry) (id : JobId) (p : JobProgress) (now at : ℕ)
    → Rings r
    → Rings (update_progress r id p now at)
unfolding update_progress progress_entry
Rings-update_progress r id p now at all = Rings-with_entry r r id _ all all (λ e h.
    elim (Bool-cases (is_throttled r.cfg.progress_throttle now e.last_progress_at)) [
      | inl t ↦ rw t (All-set _ id r.jobs.entries _ all (Ringed-same _ e _ refl refl h))
      | inr t ↦ rw t (Rings-emit r id _ _ (Ringed-same _ e _ refl refl h) refl all)
    ])

Rings-count_truncated :
    (r : Registry) (m : ℕ) (message : List ℕ) → Rings r → Rings (count_truncated m message r)
unfolding count_truncated
Rings-count_truncated r m message all = elim (Bool-cases (ltb m (length message))) [
  | inl t ↦ rw t all
  | inr t ↦ rw t all
]

Rings-append_log :
    (r : Registry) (id : JobId) (message : List ℕ) (at : ℕ)
    → Rings r
    → Rings (append_log r id message at)
unfolding append_log log_entry
Rings-append_log r id message at all =
    let counted = count_truncated r.cfg.max_log_line_bytes message r in
    let kept = Rings-count_truncated r r.cfg.max_log_line_bytes message all in
    with_line-keeps Rings (cap_line r.cfg.max_log_line_bytes message) counted _ kept (λ line.
      Rings-with_entry r counted id _ all kept (λ e h.
        Rings-emit counted id e _
          (subst (λ c. Ringed c.max_job_event_ring e)
            (sym (cfg-count_truncated r.cfg.max_log_line_bytes message r)) h)
          refl kept))

Rings-terminate :
    (r : Registry) (id : JobId) (state : JobState) (result : Option JobResult) (at : ℕ)
    → Rings r
    → Rings (terminate r id state result at)
unfolding terminate terminate_entry prune_jobs emit ended_entry terminal_event
Rings-terminate r id state result at all = Rings-with_entry r r id _ all all (λ e h.
    elim (Bool-cases (is_active e.state)) [
      | inl t ↦ rw t (
          All-prune_recent _ _ r.cfg.max_recent_jobs (
            Rings-emit r id (ended_entry state result e) (terminal_event state at e)
              (Ringed-same _ e _ refl refl h) refl all))
      | inr t ↦ rw t all
    ])

Ringed-new_entry :
    (m : ℕ) (fresh : JobId) (t : JobType) (refs : List JobReference) (path : Option TargetPath)
    (at : ℕ)
    → Ringed m (new_entry fresh t refs path at)
unfolding new_entry Numbered
Ringed-new_entry m fresh t refs path at = record {
  bound = omega arith;
  fits = λ small. omega arith;
  started = λ p. omega arith;
  numbered = λ small. tt;
}

Rings-admit :
    (r : Registry) (e : JobEntry) (conflict : Option RegistryConflict)
    → Ringed r.cfg.max_job_event_ring e
    → Rings r
    → Rings (admit e conflict r).1
unfolding admit insert_entry count_conflict
Rings-admit r e (some conflict) h all = all
Rings-admit r e none h all =
    All-prune_recent _ _ r.cfg.max_recent_jobs (h, All-remove _ e.job_id r.jobs.entries all)

Rings-Step : (r s : Registry) → Step r s → Rings r → Rings s
unfolding try_acquire try_acquire_lease grant_lease count_conflict release_lease
Rings-Step r s (acquire t refs path fresh at) all =
    elim (Bool-cases (leb (slot_cap r.cfg t) (count_slot (slot_predicate t) r.jobs.entries))) [
      | inl full ↦ rw full all
      | inr room ↦ rw room (Rings-admit r _ _ (Ringed-new_entry _ fresh t refs path at) all)
    ]
Rings-Step r s (acquire_lease refs) all =
    elim (Option-cases (lease_references_conflict refs r.jobs.entries)) [
      | inl clear ↦ rw (clear, grant_lease) all
      | inr (conflict, h) ↦ rw (h, grant_lease) all
    ]
Rings-Step r s (release id) all = all
Rings-Step r s (progress id p now at) all = Rings-update_progress r id p now at all
Rings-Step r s (log id message at) all = Rings-append_log r id message at all
Rings-Step r s (finish id state result at ends) all = Rings-terminate r id state result at all
Rings-Step r s (listeners n) all = all

-- After any sequence of operations from an empty registry, each job's ring is within its bound and,
-- while its numbers have not saturated, numbered without a hole up to `last_seq`.
pub Run-Rings : (cfg : JobRegistryCfg) (r : Registry) → Run (new cfg) r → Rings r
unfolding new
Run-Rings cfg r start = tt
Run-Rings cfg r (then_step {s = s} run step) = Rings-Step s r step (Run-Rings cfg s run)
