-- ===== src/JobRegistry/Ring/Steps.antt =====
-- job_registry.rs: what each operation adds to the events of a job, and its ring.
use al.Prelude.{
  ℕ, ◌≡◌, ◌≢◌, refl, sym, ◌∙◌, ap, subst, Option, some, List, arith, Bool-cases, Option-cases, inl,
  inr, ltb, length, Outcome, returns, panics,
}
use al.JobRegistry.Types.{JobId, JobState, is_active, JobResult, JobProgress, JobEntry, JobEvent}
use al.JobRegistry.State.{Registry, find_entry}
use al.JobRegistry.Events.{
  with_entry, is_throttled, progress_entry, update_progress, cap_line, count_truncated, with_line,
  log_entry, append_log, ended_entry, terminal_event, prune_jobs, terminate_entry, terminate,
}
use al.JobRegistry.Entries.{
  find_entry-job_id, find_entry-remove, find_entry-set_self, find_entry-set_ne,
}
use al.JobRegistry.Narrows.{jobs-count_truncated}
use al.JobRegistry.Everywhere.{prune_recent-keeps, with_line-keeps}
use al.JobRegistry.Ring.History.{
  progress_event, line_event, end_event, after_progress, after_line, after_end, Recorded,
}
use al.JobRegistry.Ring.Records.{At, some-injective, emit-At, emit_other-At, Recorded-same}

with_entry-At :
    (r counted : Registry) (j id : JobId) (h : List JobEvent) (body : JobEntry → Registry)
    → At id counted h
    → ((e : JobEntry) → find_entry j r.jobs.entries ≡ some e → At id (body e) h)
    → At id (with_entry (find_entry j r.jobs.entries) counted body) h
unfolding with_entry
with_entry-At r counted j id h body n b = elim (Option-cases (find_entry j r.jobs.entries)) [
  | inl f ↦ rw (f, with_entry) n
  | inr (e, f) ↦ rw (f, with_entry) (b e f)
]

prune_jobs-At : (r : Registry) (id : JobId) (h : List JobEvent) → At id r h → At id (prune_jobs r) h
unfolding prune_jobs At
prune_jobs-At r id h all =
    prune_recent-keeps
      (λ es. (e : JobEntry) → find_entry id es ≡ some e → Recorded r.cfg.max_job_event_ring h e)
      (λ j es k e f. k e (ground (arith, find_entry-remove j id es))) r.jobs r.cfg.max_recent_jobs
      all

pub progress_other-At :
    (r : Registry) (id j : JobId) (p : JobProgress) (now at : ℕ) (h : List JobEvent)
    → j ≢ id
    → At id r h
    → At id (update_progress r j p now at) h
unfolding update_progress progress_entry
progress_other-At r id j p now at h ne all = with_entry-At r r j id h _ all (λ e f.
    let same = find_entry-job_id j r.jobs.entries e f in
    elim (Bool-cases (is_throttled r.cfg.progress_throttle now e.last_progress_at)) [
      | inl t ↦
          rw t
            (unfold At in λ x g. all x (sym (find_entry-set_ne j id r.jobs.entries _ same ne) ∙ g))
      | inr t ↦ rw t (emit_other-At r id j _ h _ all same ne)
    ])

pub progress-At :
    (r : Registry) (id : JobId) (p : JobProgress) (now at : ℕ) (h : List JobEvent)
    → At id r h
    → At id
        (update_progress r id p now at)
        (after_progress r.cfg.progress_throttle p now at h (find_entry id r.jobs.entries))
unfolding update_progress progress_entry after_progress with_entry progress_event
progress-At r id p now at h all = elim (Option-cases (find_entry id r.jobs.entries)) [
  | inl f ↦ rw (f, with_entry, after_progress) all
  | inr (e, f) ↦
      rw (f, with_entry, after_progress)
        (let same = find_entry-job_id id r.jobs.entries e f in
          elim (Bool-cases (is_throttled r.cfg.progress_throttle now e.last_progress_at)) [
            | inl t ↦ rw t (
                unfold At in
                λ x g.
                  let written = find_entry-set_self id r.jobs.entries _ e same f in
                  let is = some-injective _ x (sym written ∙ g) in
                  subst (Recorded r.cfg.max_job_event_ring h) is
                    (Recorded-same _ h e _ refl refl (unfold At in all e f)))
            | inr t ↦ rw t (emit-At r id e _ h (progress_event p at) all f refl refl (λ n. refl))
          ])
]

count_truncated-At :
    (m : ℕ) (message : List ℕ) (r : Registry) (id : JobId) (h : List JobEvent)
    → At id r h
    → At id (count_truncated m message r) h
unfolding count_truncated At
count_truncated-At m message r id h all = elim (Bool-cases (ltb m (length message))) [
  | inl t ↦ rw t all
  | inr t ↦ rw t all
]

pub log_other-At :
    (r : Registry) (id j : JobId) (message : List ℕ) (at : ℕ) (h : List JobEvent)
    → j ≢ id
    → At id r h
    → At id (append_log r j message at) h
unfolding append_log log_entry
log_other-At r id j message at h ne all =
    let m = r.cfg.max_log_line_bytes in
    let counted = count_truncated m message r in
    let kept = count_truncated-At m message r id h all in
    with_line-keeps (λ s. At id s h) (cap_line m message) counted _ kept
      (λ line.
        with_entry-At r counted j id h _ kept (λ e f.
          emit_other-At counted id j e h _ kept (find_entry-job_id j r.jobs.entries e f) ne))

line-At :
    (r counted : Registry) (id : JobId) (line : Outcome (List ℕ)) (at : ℕ) (h : List JobEvent)
    → At id counted h
    → find_entry id counted.jobs.entries ≡ find_entry id r.jobs.entries
    → At id
        (with_line line counted (λ s.
          with_entry (find_entry id r.jobs.entries) counted (λ e. log_entry counted id s at e)))
        (after_line at h line (find_entry id r.jobs.entries))
unfolding with_line with_entry after_line log_entry line_event
line-At r counted id panics at h kept same = kept
line-At r counted id (returns s) at h kept same =
    elim (Option-cases (find_entry id r.jobs.entries)) [
      | inl f ↦ rw (f, with_entry, after_line) kept
      | inr (e, f) ↦
          rw (f, with_entry, after_line)
            (emit-At counted id e e h (line_event s at) kept (same ∙ f) refl refl (λ n. refl))
    ]

pub log-At :
    (r : Registry) (id : JobId) (message : List ℕ) (at : ℕ) (h : List JobEvent)
    → At id r h
    → At id
        (append_log r id message at)
        (after_line at h (cap_line r.cfg.max_log_line_bytes message) (find_entry id r.jobs.entries))
unfolding append_log
log-At r id message at h all =
    let m = r.cfg.max_log_line_bytes in
    line-At r (count_truncated m message r) id (cap_line m message) at h
      (count_truncated-At m message r id h all)
      (ap (λ j. find_entry id j.entries) (jobs-count_truncated m message r))

pub end_other-At :
    (r : Registry) (id j : JobId) (state : JobState) (result : Option JobResult) (at : ℕ)
    (h : List JobEvent)
    → j ≢ id
    → At id r h
    → At id (terminate r j state result at) h
unfolding terminate terminate_entry ended_entry
end_other-At r id j state result at h ne all = with_entry-At r r j id h _ all (λ e f.
    elim (Bool-cases (is_active e.state)) [
      | inl t ↦ rw t (
          prune_jobs-At _ id h
            (emit_other-At r id j _ h _ all (find_entry-job_id j r.jobs.entries e f) ne))
      | inr t ↦ rw t all
    ])

pub end-At :
    (r : Registry) (id : JobId) (state : JobState) (result : Option JobResult) (at : ℕ)
    (h : List JobEvent)
    → At id r h
    → At id (terminate r id state result at) (after_end state at h (find_entry id r.jobs.entries))
unfolding terminate terminate_entry ended_entry terminal_event with_entry after_end end_event
end-At r id state result at h all = elim (Option-cases (find_entry id r.jobs.entries)) [
  | inl f ↦ rw (f, with_entry, after_end) all
  | inr (e, f) ↦
      rw (f, with_entry, after_end)
        (elim (Bool-cases (is_active e.state)) [
          | inl t ↦ rw t (
              prune_jobs-At _ id _
                (emit-At r id e _ h (end_event state e.progress at) all f refl refl (λ n. refl)))
          | inr t ↦ rw t all
        ])
]
