-- ===== src/JobRegistry/Narrows.antt =====
-- job_registry.rs: progress, log lines and the end of a job narrow what the registry admits by.
use al.Prelude.{
  ℕ, ◌≡◌, refl, ◌∙◌, ap, false, Option, some, List, arith, Bool-cases, Option-cases, inl, inr, ltb,
  length,
}
use al.JobRegistry.Types.{JobId, JobState, is_active, JobEntry, JobEvent, JobProgress, JobResult}
use al.JobRegistry.State.{Registry, find_entry}
use al.JobRegistry.Admission.{refers_to}
use al.JobRegistry.Events.{
  emit, is_throttled, progress_entry, update_progress, count_truncated, log_entry, append_log,
  cap_line, terminate_entry, terminate, with_entry, ended_entry, terminal_event, prune_jobs,
}
use al.JobRegistry.Entries.{find_entry-job_id}
use al.JobRegistry.Everywhere.{with_line-keeps}
use al.JobRegistry.Shrinks.{
  Weaker, Weaker-refl, Shrinks, Shrinks-refl, Shrinks-trans, Shrinks-set, Shrinks-prune_recent,
  leases-prune_recent,
}

pub record Narrows (r r' : Registry) : Type 0 where
  pub shrinks : Shrinks r.jobs.entries r'.jobs.entries
  pub leases : r'.jobs.leases ≡ r.jobs.leases
  pub cfg : r'.cfg ≡ r.cfg

pub Narrows-refl : (r : Registry) → Narrows r r
Narrows-refl r = record { shrinks = Shrinks-refl r.jobs.entries; leases = refl; cfg = refl }

-- Writing back a weaker entry with its next event.
Narrows-emit :
    (r : Registry) (id : JobId) (e' e : JobEntry) (event : JobEvent)
    → find_entry id r.jobs.entries ≡ some e
    → e'.job_id ≡ e.job_id
    → Weaker e' e
    → Narrows r (emit r id e' event)
unfolding emit
Narrows-emit r id e' e event h same w = record {
  shrinks =
      Shrinks-set id r.jobs.entries _ e h (same ∙ find_entry-job_id id r.jobs.entries e h)
        (record { job_type = w.job_type; active = w.active; references = w.references });
  leases = refl;
  cfg = refl;
}

Narrows-progress_entry :
    (r : Registry) (id : JobId) (progress : JobProgress) (now at : ℕ) (e : JobEntry)
    → find_entry id r.jobs.entries ≡ some e
    → Narrows r (progress_entry r id progress now at e)
unfolding progress_entry
Narrows-progress_entry r id progress now at e h =
    elim (Bool-cases (is_throttled r.cfg.progress_throttle now e.last_progress_at)) [
      | inl t ↦ rw t (record {
        shrinks =
            Shrinks-set id r.jobs.entries _ e h (find_entry-job_id id r.jobs.entries e h)
              (record { job_type = refl; active = λ a. a; references = λ ws a. a });
        leases = refl;
        cfg = refl;
      })
      | inr t ↦ rw t (
          Narrows-emit r id _ e _ h refl
            (record { job_type = refl; active = λ a. a; references = λ ws a. a }))
    ]

Narrows-with_entry :
    (r counted : Registry) (id : JobId) (body : JobEntry → Registry)
    → Narrows r counted
    → ((e : JobEntry) → find_entry id r.jobs.entries ≡ some e → Narrows r (body e))
    → Narrows r (with_entry (find_entry id r.jobs.entries) counted body)
unfolding with_entry
Narrows-with_entry r counted id body n b = elim (Option-cases (find_entry id r.jobs.entries)) [
  | inl h ↦ rw (h, with_entry) n
  | inr (e, h) ↦ rw (h, with_entry) (b e h)
]

pub Narrows-update_progress :
    (r : Registry) (id : JobId) (progress : JobProgress) (now at : ℕ)
    → Narrows r (update_progress r id progress now at)
unfolding update_progress
Narrows-update_progress r id progress now at =
    Narrows-with_entry r r id _ (Narrows-refl r) (Narrows-progress_entry r id progress now at)

-- A line that is cut is counted; that changes the counters alone.
Narrows-counted :
    (r : Registry) (m : ℕ) (message : List ℕ) (r' : Registry)
    → Narrows (count_truncated m message r) r'
    → Narrows r r'
unfolding count_truncated
Narrows-counted r m message r' n = elim (Bool-cases (ltb m (length message))) [
  | inl cut ↦
      let n' = rw (cut, count_truncated) at n in
      record { shrinks = n'.shrinks; leases = n'.leases; cfg = n'.cfg }
  | inr whole ↦ rw (whole, count_truncated) at n
]

pub jobs-count_truncated :
    (m : ℕ) (message : List ℕ) (r : Registry) → (count_truncated m message r).jobs ≡ r.jobs
unfolding count_truncated
jobs-count_truncated m message r = ground arith

pub cfg-count_truncated :
    (m : ℕ) (message : List ℕ) (r : Registry) → (count_truncated m message r).cfg ≡ r.cfg
unfolding count_truncated
cfg-count_truncated m message r = ground arith

pub Narrows-append_log :
    (r : Registry) (id : JobId) (message : List ℕ) (at : ℕ) → Narrows r (append_log r id message at)
unfolding append_log log_entry
Narrows-append_log r id message at =
    let counted = count_truncated r.cfg.max_log_line_bytes message r in
    let kept = Narrows-counted r r.cfg.max_log_line_bytes message counted (Narrows-refl counted) in
    with_line-keeps (Narrows r) (cap_line r.cfg.max_log_line_bytes message) counted _ kept (λ line.
      Narrows-with_entry r counted id _ kept (λ e h.
        Narrows-counted r r.cfg.max_log_line_bytes message _ (
          Narrows-emit counted id e e _
            (ap (λ j. find_entry id j.entries)
                (jobs-count_truncated r.cfg.max_log_line_bytes message r)
              ∙ h)
            refl (Weaker-refl e))))

Weaker-ended_entry :
    (state : JobState) (result : Option JobResult) (e : JobEntry)
    → is_active state ≡ false
    → Weaker (ended_entry state result e) e
unfolding ended_entry refers_to
Weaker-ended_entry state result e ends = record {
  job_type = refl;
  active = λ h. cc;
  references = λ ws h. cc;
}

Narrows-prune_jobs : (r r' : Registry) → Narrows r r' → Narrows r (prune_jobs r')
unfolding prune_jobs
Narrows-prune_jobs r r' n = record {
  shrinks = Shrinks-trans n.shrinks (Shrinks-prune_recent r'.jobs r'.cfg.max_recent_jobs);
  leases = leases-prune_recent r'.jobs r'.cfg.max_recent_jobs ∙ n.leases;
  cfg = n.cfg;
}

Narrows-terminate_entry :
    (r : Registry) (id : JobId) (state : JobState) (result : Option JobResult) (at : ℕ)
    → is_active state ≡ false
    → (e : JobEntry) → find_entry id r.jobs.entries ≡ some e
    → Narrows r (terminate_entry r id state result at e)
unfolding terminate_entry
Narrows-terminate_entry r id state result at ends e h = elim (Bool-cases (is_active e.state)) [
  | inl a ↦ rw a (
      Narrows-prune_jobs r _ (
        Narrows-emit r id (ended_entry state result e) e (terminal_event state at e) h
          (unfold ended_entry in refl) (Weaker-ended_entry state result e ends)))
  | inr a ↦ rw a (Narrows-refl r)
]

pub Narrows-terminate :
    (r : Registry) (id : JobId) (state : JobState) (result : Option JobResult) (at : ℕ)
    → is_active state ≡ false
    → Narrows r (terminate r id state result at)
unfolding terminate
Narrows-terminate r id state result at ends =
    Narrows-with_entry r r id _ (Narrows-refl r) (Narrows-terminate_entry r id state result at ends)
