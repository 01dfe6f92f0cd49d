-- ===== src/JobRegistry/Ring/Admits.antt =====
-- job_registry.rs: what an admission and a lease do to the rings.
use al.Prelude.{
  ℕ, ◌-◌, ◌≡◌, ◌≢◌, max, sym, ◌∙◌, subst, Option, none, some, List, [], arith, Bool-cases,
  Option-cases, inl, inr, leb, ◌==◌, ==_iff, ==_false, ℕ_discrete, if◌then◌else◌, drop-nil,
}
use al.JobRegistry.Types.{
  JobId, JobType, JobReference, TargetPath, JobEntry, JobEvent, RegistryConflict,
}
use al.JobRegistry.State.{Registry, new, find_entry, prune_recent}
use al.JobRegistry.Admission.{
  slot_cap, slot_predicate, count_slot, count_conflict, new_entry, insert_entry, admit, try_acquire,
  grant_lease, lease_references_conflict, try_acquire_lease,
}
use al.JobRegistry.Entries.{find_entry-remove}
use al.JobRegistry.Everywhere.{prune_recent-keeps}
use al.JobRegistry.Ring.History.{lasts, after_admission, Recorded}
use al.JobRegistry.Ring.Records.{At, some-injective}

-- The entry of a job that is admitted, and those of the others.
inserted-At :
    (r : Registry) (id : JobId) (e : JobEntry) (h : List JobEvent)
    → (e.job_id ≡ id → Recorded r.cfg.max_job_event_ring h e)
    → (e.job_id ≢ id → At id r h)
    → At id (record r { jobs = prune_recent (insert_entry e r.jobs) r.cfg.max_recent_jobs }) h
unfolding At insert_entry find_entry
inserted-At r id e h new others =
    prune_recent-keeps
      (λ es. (x : JobEntry) → find_entry id es ≡ some x → Recorded r.cfg.max_job_event_ring h x)
      (λ j es k x f. k x (ground (arith, find_entry-remove j id es))) (insert_entry e r.jobs)
      r.cfg.max_recent_jobs
      (λ x f. elim (ℕ_discrete e.job_id id) [
        | yes same ↦
            let test = (==_iff e.job_id id).1 same in
            let is = some-injective e x (rw test at f) in
            subst (Recorded r.cfg.max_job_event_ring h) is (new same)
        | no ne ↦
            let test = ==_false e.job_id id ne in
            let g = rw test at f in
            let old = sym (find_entry-remove e.job_id id r.jobs.entries) ∙ g in
            others ne x (rw test at old)
      ])

Recorded-new_entry :
    (m : ℕ) (fresh : JobId) (t : JobType) (refs : List JobReference) (path : Option TargetPath)
    (at : ℕ)
    → Recorded m [] (new_entry fresh t refs path at)
unfolding new_entry lasts
Recorded-new_entry m fresh t refs path at = record {
  ring = sym (drop-nil (0 - max 1 m));
  last_seq = omega arith;
}

count_conflict-At :
    (r : Registry) (id : JobId) (h : List JobEvent) → At id r h → At id (count_conflict r) h
unfolding count_conflict At
count_conflict-At r id h all = all

admit-At :
    (r : Registry) (id : JobId) (e : JobEntry) (conflict : Option RegistryConflict)
    (h : List JobEvent)
    → Recorded r.cfg.max_job_event_ring [] e
    → At id r h
    → At id
        (admit e conflict r).1
        (if e.job_id == id then after_admission h (admit e conflict r).0 else h)
unfolding admit after_admission
admit-At r id e (some conflict) h new all = elim (ℕ_discrete e.job_id id) [
  | yes same ↦ rw ((==_iff e.job_id id).1 same) (count_conflict-At r id h all)
  | no ne ↦ rw (==_false e.job_id id ne) (count_conflict-At r id h all)
]
admit-At r id e none h new all = elim (ℕ_discrete e.job_id id) [
  | yes same ↦
      rw ((==_iff e.job_id id).1 same) (inserted-At r id e [] (λ s. new) (λ ne. absurd (ne same)))
  | no ne ↦ rw (==_false e.job_id id ne) (inserted-At r id e h (λ s. absurd (ne s)) (λ n. all))
]

pub acquire-At :
    (r : Registry) (id : JobId) (t : JobType) (refs : List JobReference) (path : Option TargetPath)
    (fresh : JobId) (at : ℕ) (h : List JobEvent)
    → At id r h
    → At id
        (try_acquire r t refs path fresh at).1
        (if fresh == id then after_admission h (try_acquire r t refs path fresh at).0 else h)
unfolding try_acquire after_admission
acquire-At r id t refs path fresh at h all =
    elim (Bool-cases (leb (slot_cap r.cfg t) (count_slot (slot_predicate t) r.jobs.entries))) [
      | inl full ↦ rw full (elim (Bool-cases (fresh == id)) [
        | inl same ↦ rw same (count_conflict-At r id h all)
        | inr ne ↦ rw ne (count_conflict-At r id h all)
      ])
      | inr room ↦ rw room (
          unfold new_entry in
          admit-At r id (new_entry fresh t refs path at) _ h
            (Recorded-new_entry _ fresh t refs path at) all)
    ]

pub lease-At :
    (r : Registry) (id : JobId) (refs : List JobReference) (h : List JobEvent)
    → At id r h
    → At id (try_acquire_lease r refs).1 h
unfolding try_acquire_lease grant_lease count_conflict At
lease-At r id refs h all = elim (Option-cases (lease_references_conflict refs r.jobs.entries)) [
  | inl clear ↦ rw (clear, grant_lease) all
  | inr (conflict, e) ↦ rw (e, grant_lease) all
]
