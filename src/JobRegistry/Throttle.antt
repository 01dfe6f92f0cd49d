-- ===== src/JobRegistry/Throttle.antt =====
-- job_registry.rs: the throttle of the progress events.
use al.Prelude.{ℕ, ◌≡◌, refl, true, false, some, arith, Bool-cases, inl, inr}
use al.JobRegistry.Types.{JobId, JobProgress, JobEntry}
use al.JobRegistry.State.{Registry, find_entry}
use al.JobRegistry.Events.{
  next_seq, emit, with_entry, is_throttled, progress_entry, update_progress,
}
use al.JobRegistry.Entries.{find_entry-job_id, find_entry-set_self}

-- For a job that the registry has, `update_progress` always shows the new progress. Within the
-- throttle's window of the last progress event it emits nothing: the ring, the job's number, the
-- time of that event and what is broadcast stay; otherwise the job's number advances and the window
-- starts anew.
pub update_progress_lem :
    (r : Registry) (id : JobId) (p : JobProgress) (now at : ℕ) (e : JobEntry)
    → find_entry id r.jobs.entries ≡ some e
    → (e' : JobEntry) × (find_entry id (update_progress r id p now at).jobs.entries ≡ some e')
      × (e'.progress ≡ some p)
      × (is_throttled r.cfg.progress_throttle now e.last_progress_at ≡ true
          → (e'.ring ≡ e.ring)
            × (e'.last_seq ≡ e.last_seq)
            × (e'.last_progress_at ≡ e.last_progress_at)
            × ((update_progress r id p now at).broadcast ≡ r.broadcast))
      × (is_throttled r.cfg.progress_throttle now e.last_progress_at ≡ false
          → (e'.last_seq ≡ next_seq e.last_seq) × (e'.last_progress_at ≡ some now))
unfolding update_progress progress_entry emit with_entry
update_progress_lem r id p now at e h =
    let same = find_entry-job_id id r.jobs.entries e h in
    elim (Bool-cases (is_throttled r.cfg.progress_throttle now e.last_progress_at)) [
      | inl t ↦
          rw (h, with_entry, t)
            (
              _,
              find_entry-set_self id r.jobs.entries _ e same h,
              refl,
              (λ q. (refl, refl, refl, refl)),
              λ q. absurd (ground arith),
            )
      | inr t ↦
          rw (h, with_entry, t)
            (
              _,
              find_entry-set_self id r.jobs.entries _ e same h,
              refl,
              (λ q. absurd (ground arith)),
              λ q. (refl, refl),
            )
    ]
