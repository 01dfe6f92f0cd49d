-- ===== src/JobRegistry/Retention/Bound.antt =====
-- job_registry.rs: how many entries are retained.
use al.Prelude.{
  Outcome, ℕ, max, ◌+◌, ◌≤◌, ◌≡◌, refl, sym, ◌∙◌, ap, true, Option, none, some, List, arith,
  Bool-cases, Option-cases, inl, inr, leb, ltb, ◌==◌, any, subst, length, ℕ_discrete, ==_iff,
}
use al.JobRegistry.Types.{
  JobId, JobReference, JobState, JobResult, JobProgress, train, convert, workspace_delete,
  is_active, JobEntry, JobRegistryCfg, RegistryConflict,
}
use al.JobRegistry.State.{JobsState, Registry, new, find_entry, set_entry, prune_recent}
use al.JobRegistry.Admission.{
  slot_cap, slot_predicate, count_slot, count_conflict, insert_entry, admit, try_acquire,
  grant_lease, lease_references_conflict, try_acquire_lease, release_lease,
}
use al.JobRegistry.Events.{
  emit, with_entry, is_throttled, progress_entry, update_progress, count_truncated, log_entry,
  append_log, cap_line, ended_entry, prune_jobs, terminate_entry, terminate,
}
use al.JobRegistry.Entries.{
  find_entry-job_id, find_entry-set_self, find_entry-set_ne, length-set_entry,
}
use al.JobRegistry.Exclusion.{find_entry-insert}
use al.JobRegistry.Everywhere.{prune_recent-keeps, with_line-keeps}
use al.JobRegistry.Retention.Ids.{
  Distinct, Distinct-set, Distinct-remove, remove_entry-absent, All-found, length-slots,
}
use al.JobRegistry.Retention.{Covered, Pruned, prune_recent-Pruned}
use al.JobRegistry.Runs.{
  Step, acquire, acquire_lease, release, progress, log, finish, listeners, Run, start, then_step,
  Run-WellFormed,
}

-- The order covers the entries, no two have one id, and `prune_recent` has run since the last of
-- them came or ended.
pub record Retained (m : ℕ) (s : JobsState) : Type 0 where
  pub covered : Covered s
  pub distinct : Distinct s.entries
  pub pruned : Pruned m s

Covered-set :
    (s : JobsState) (id : JobId) (e' e : JobEntry)
    → find_entry id s.entries ≡ some e
    → e'.job_id ≡ id
    → Covered s
    → Covered (record s { entries = set_entry id e' s.entries })
unfolding Covered
Covered-set s id e' e h same c = λ j x f. elim (ℕ_discrete id j) [
  | yes here ↦ subst (λ k. any (λ y. y == k) s.order ≡ true) here (c id e h)
  | no other ↦ c j x (sym (find_entry-set_ne id j s.entries e' same other) ∙ f)
]

Pruned-set :
    (m : ℕ) (s : JobsState) (id : JobId) (e' e : JobEntry)
    → find_entry id s.entries ≡ some e
    → e'.job_id ≡ id
    → e'.state ≡ e.state
    → Pruned m s
    → Pruned m (record s { entries = set_entry id e' s.entries })
unfolding Pruned
Pruned-set m s id e' e h same state (inl few) = inl (rw (length-set_entry id s.entries e') few)
Pruned-set m s id e' e h same state (inr live) = inr (λ j x f. elim (ℕ_discrete id j) [
  | yes here ↦
      let both : some e' ≡ some x =
        sym (find_entry-set_self id s.entries e' e same h)
        ∙ (ap (λ k. find_entry k (set_entry id e' s.entries)) here ∙ f) in
      let new : e' ≡ x = cc in
      ap (λ y. is_active y.state) (sym new) ∙ (ap is_active state ∙ live id e h)
  | no other ↦ live j x (sym (find_entry-set_ne id j s.entries e' same other) ∙ f)
])

Retained-set :
    (m : ℕ) (s : JobsState) (id : JobId) (e' e : JobEntry)
    → find_entry id s.entries ≡ some e
    → e'.job_id ≡ id
    → e'.state ≡ e.state
    → Retained m s
    → Retained m (record s { entries = set_entry id e' s.entries })
Retained-set m s id e' e h same state r = record {
  covered = Covered-set s id e' e h same r.covered;
  distinct = Distinct-set id s.entries e' same r.distinct;
  pruned = Pruned-set m s id e' e h same state r.pruned;
}

-- A pruning, whatever was retained before.
Retained-prune :
    (m : ℕ) (s : JobsState) → Covered s → Distinct s.entries → Retained m (prune_recent s m)
Retained-prune m s c d = record {
  covered = (prune_recent-Pruned s m c).0;
  distinct = prune_recent-keeps Distinct Distinct-remove s m d;
  pruned = (prune_recent-Pruned s m c).1;
}

abbrev Retains : Registry → Type 0
Retains r = Retained r.cfg.max_recent_jobs r.jobs

Retains-with_entry :
    (r counted : Registry) (id : JobId) (body : JobEntry → Registry)
    → Retains counted
    → ((e : JobEntry) → find_entry id r.jobs.entries ≡ some e → Retains (body e))
    → Retains (with_entry (find_entry id r.jobs.entries) counted body)
unfolding with_entry
Retains-with_entry r counted id body n b = elim (Option-cases (find_entry id r.jobs.entries)) [
  | inl h ↦ rw (h, with_entry) n
  | inr (e, h) ↦ rw (h, with_entry) (b e h)
]

Retains-update_progress :
    (r : Registry) (id : JobId) (p : JobProgress) (now at : ℕ)
    → Retains r
    → Retains (update_progress r id p now at)
unfolding update_progress progress_entry emit
Retains-update_progress r id p now at all = Retains-with_entry r r id _ all (λ e h.
    let same = find_entry-job_id id r.jobs.entries e h in
    elim (Bool-cases (is_throttled r.cfg.progress_throttle now e.last_progress_at)) [
      | inl t ↦ rw t (Retained-set _ r.jobs id _ e h same refl all)
      | inr t ↦ rw t (Retained-set _ r.jobs id _ e h same refl all)
    ])

Retains-append_log :
    (r : Registry) (id : JobId) (message : List ℕ) (at : ℕ)
    → Retains r
    → Retains (append_log r id message at)
unfolding append_log log_entry emit count_truncated
Retains-append_log r id message at all =
    let cap : Outcome (List ℕ) = cap_line r.cfg.max_log_line_bytes message in
    elim (Bool-cases (ltb r.cfg.max_log_line_bytes (length message))) [
      | inl t ↦ rw t (
          with_line-keeps Retains cap _ _ all (λ line. Retains-with_entry r _ id _ all (λ e h.
            Retained-set _ r.jobs id _ e h (find_entry-job_id id r.jobs.entries e h) refl all)))
      | inr t ↦ rw t (
          with_line-keeps Retains cap _ _ all (λ line. Retains-with_entry r r id _ all (λ e h.
            Retained-set _ r.jobs id _ e h (find_entry-job_id id r.jobs.entries e h) refl all)))
    ]

Retains-terminate :
    (r : Registry) (id : JobId) (state : JobState) (result : Option JobResult) (at : ℕ)
    → Retains r
    → Retains (terminate r id state result at)
unfolding terminate terminate_entry prune_jobs emit ended_entry
Retains-terminate r id state result at all = Retains-with_entry r r id _ all (λ e h.
    let same = find_entry-job_id id r.jobs.entries e h in
    elim (Bool-cases (is_active e.state)) [
      | inl t ↦ rw t (
          Retained-prune _ _ (Covered-set r.jobs id _ e h same all.covered)
            (Distinct-set id r.jobs.entries _ same all.distinct))
      | inr t ↦ rw t all
    ])

Covered-insert : (e : JobEntry) (s : JobsState) → Covered s → Covered (insert_entry e s)
unfolding Covered insert_entry
Covered-insert e s c = λ j x f. elim (find_entry-insert e s j x f) [
  | inl (here, _) ↦ rw ((==_iff e.job_id j).1 (sym here)) refl
  | inr there ↦ let covered = c j x there in ground arith
]

Retained-leases :
    (m : ℕ) (s : JobsState) (leases : List (ℕ × List JobReference)) (next_lease_id : ℕ)
    → Retained m s
    → Retained m (record s { leases = leases; next_lease_id = next_lease_id })
unfolding Covered Pruned
Retained-leases m s leases next_lease_id h = record {
  covered = h.covered;
  distinct = h.distinct;
  pruned = h.pruned;
}

Retains-admit :
    (r : Registry) (e : JobEntry) (conflict : Option RegistryConflict)
    → Retains r
    → Retains (admit e conflict r).1
unfolding admit insert_entry count_conflict Distinct
Retains-admit r e (some conflict) all = all
Retains-admit r e none all = Retained-prune _ _ (Covered-insert e r.jobs all.covered) (
  remove_entry-absent e.job_id r.jobs.entries,
  Distinct-remove e.job_id r.jobs.entries all.distinct,
)

Retains-Step : (r s : Registry) → Step r s → Retains r → Retains s
unfolding try_acquire try_acquire_lease grant_lease count_conflict release_lease
Retains-Step r s (acquire t refs path fresh at) all =
    elim (Bool-cases (leb (slot_cap r.cfg t) (count_slot (slot_predicate t) r.jobs.entries))) [
      | inl full ↦ rw full all
      | inr room ↦ rw room (Retains-admit r _ _ all)
    ]
Retains-Step r s (acquire_lease refs) all =
    elim (Option-cases (lease_references_conflict refs r.jobs.entries)) [
      | inl clear ↦ rw (clear, grant_lease) (Retained-leases _ r.jobs _ _ all)
      | inr (conflict, h) ↦ rw (h, grant_lease) all
    ]
Retains-Step r s (release id) all = Retained-leases _ r.jobs _ _ all
Retains-Step r s (progress id p now at) all = Retains-update_progress r id p now at all
Retains-Step r s (log id message at) all = Retains-append_log r id message at all
Retains-Step r s (finish id state result at ends) all = Retains-terminate r id state result at all
Retains-Step r s (listeners n) all = all

Run-Retains : (cfg : JobRegistryCfg) (r : Registry) → Run (new cfg) r → Retains r
unfolding new Covered Pruned Distinct find_entry
Run-Retains cfg r start = record {
  covered = λ j e f. cc;
  distinct = tt;
  pruned = inl (omega arith);
}
Run-Retains cfg r (then_step {s = s} run step) = Retains-Step s r step (Run-Retains cfg s run)

-- After any sequence of operations from an empty registry, the number of the entries is at most
-- the greater of `max_recent_jobs` and the sum of the three caps.
pub length-Run :
    (cfg : JobRegistryCfg) (r : Registry)
    → Run (new cfg) r
    → length r.jobs.entries
      ≤ max r.cfg.max_recent_jobs
          (r.cfg.max_train_jobs + r.cfg.max_convert_jobs + r.cfg.max_delete_jobs)
unfolding slot_predicate slot_cap Pruned
length-Run cfg r run =
    let retained = Run-Retains cfg r run in
    let capped = (Run-WellFormed cfg r run).capped in
    elim retained.pruned [
      | inl few ↦ omega arith
      | inr live ↦
          let all = All-found _ r.jobs.entries retained.distinct live in
          omega (
            arith,
            length-slots r.jobs.entries all,
            capped.slot train,
            capped.slot convert,
            capped.slot workspace_delete,
          )
    ]
