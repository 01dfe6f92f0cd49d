-- ===== src/JobRegistry/Ended.antt =====
-- job_registry.rs: the end of a job is its last state.
use al.Prelude.{
  ℕ, ◌≡◌, refl, sym, ◌∙◌, false, Option, none, some, List, Bool-cases, Option-cases, inl, inr,
  subst,
}
use al.JobRegistry.Types.{
  JobId, JobState, succeeded, failed, cancelled, is_active, JobResult, JobEntry,
}
use al.JobRegistry.State.{Registry, find_entry}
use al.JobRegistry.Events.{
  emit, with_entry, append_log, ended_entry, prune_jobs, terminate_entry, terminate,
}
use al.JobRegistry.Handle.{JobHandle, drop_handle, succeed, fail, cancel}
use al.JobRegistry.Entries.{find_entry-job_id, find_entry-set_self}
use al.JobRegistry.Shrinks.{Shrinks-prune_recent}

-- The job is gone or has ended.
pub Ended : JobId → Registry → Type 0
Ended id r = (e : JobEntry) → find_entry id r.jobs.entries ≡ some e → is_active e.state ≡ false

state-some : (y z : JobEntry) → some y ≡ some z → y.state ≡ z.state
state-some y z h = cc

terminate_entry-Ended :
    (r : Registry) (id : JobId) (state : JobState) (result : Option JobResult) (at : ℕ)
    (e : JobEntry)
    → is_active state ≡ false
    → find_entry id r.jobs.entries ≡ some e
    → Ended id (terminate_entry r id state result at e)
unfolding terminate_entry Ended prune_jobs emit ended_entry
terminate_entry-Ended r id state result at e ends h = elim (Bool-cases (is_active e.state)) [
  | inl a ↦ rw a (λ x f.
      let (y, there, weaker) = (Shrinks-prune_recent _ r.cfg.max_recent_jobs).found id x f in
      let ended = state-some y _ (
        sym there
        ∙ find_entry-set_self id r.jobs.entries _ e (find_entry-job_id id r.jobs.entries e h) h) in
      let active = weaker.active in
      elim (Bool-cases (is_active x.state)) [
        | inl still ↦ let bad = active still in cc
        | inr over ↦ over
      ])
  | inr a ↦ rw a (λ x f.
      let both : some e ≡ some x = sym h ∙ f in
      let same : e ≡ x = cc in subst (λ y. is_active y.state ≡ false) same a)
]

pub terminate-Ended :
    (r : Registry) (id : JobId) (state : JobState) (result : Option JobResult) (at : ℕ)
    → is_active state ≡ false
    → Ended id (terminate r id state result at)
unfolding terminate Ended with_entry
terminate-Ended r id state result at ends = elim (Option-cases (find_entry id r.jobs.entries)) [
  | inl h ↦ rw (h, with_entry) (λ e f. cc)
  | inr (e, h) ↦ rw (h, with_entry) (terminate_entry-Ended r id state result at e ends h)
]

-- Once a job has ended, another end changes nothing.
terminate_twice :
    (r : Registry) (id : JobId) (state : JobState) (result : Option JobResult) (at : ℕ)
    → Ended id r
    → terminate r id state result at ≡ r
unfolding terminate terminate_entry with_entry Ended
terminate_twice r id state result at ended = elim (Option-cases (find_entry id r.jobs.entries)) [
  | inl h ↦ rw (h, with_entry) refl
  | inr (e, h) ↦ rw (h, with_entry, ended e h) refl
]

-- However a handle is consumed, its job is afterwards gone or in a state that is not active: by
-- `succeed`, `fail` or `cancel`, and by a drop without any of them.
pub handle-Ended :
    (r : Registry) (h : JobHandle) (result : Option JobResult) (reason : List ℕ) (at : ℕ)
    → h.terminated ≡ false
    → Ended h.job_id (succeed r h result at)
      × Ended h.job_id (fail r h reason at)
      × Ended h.job_id (cancel r h at)
      × Ended h.job_id (drop_handle r h at)
unfolding succeed fail cancel drop_handle
handle-Ended r h result reason at alive = (
  terminate-Ended r h.job_id succeeded result at refl,
  terminate-Ended (append_log r h.job_id reason at) h.job_id failed none at refl,
  terminate-Ended r h.job_id cancelled none at refl,
  rw alive (terminate-Ended r h.job_id failed none at refl),
)

-- Of two ends of a job the first counts: the second changes nothing in the registry, neither the
-- job nor a counter nor what is broadcast.
pub terminate-terminate :
    (r : Registry) (id : JobId) (first second : JobState) (result other : Option JobResult)
    (at later : ℕ)
    → is_active first ≡ false
    → terminate (terminate r id first result at) id second other later
      ≡ terminate r id first result at
terminate-terminate r id first second result other at later ends =
    terminate_twice _ id second other later (terminate-Ended r id first result at ends)
