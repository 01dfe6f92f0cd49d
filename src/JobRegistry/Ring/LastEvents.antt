-- ===== src/JobRegistry/Ring/LastEvents.antt =====
-- job_registry.rs: the ring of a job is its last events.
use al.Prelude.{
  ℕ, suc, ◌+◌, ◌-◌, ◌^◌, ◌≤◌, ◌<◌, ◌≡◌, ◌≢◌, max, refl, sym, ◌∙◌, ap, ap₂, subst, some, List, [],
  ◌∷◌, arith, Bool-cases, inl, inr, ltb, ◌==◌, ==_iff, ==_false, ℕ_discrete, if◌then◌else◌, length,
  length-drop, drop, drop-nil,
}
use al.JobRegistry.Types.{JobId, JobEntry, JobEvent, JobRegistryCfg}
use al.JobRegistry.State.{Registry, new, find_entry}
use al.JobRegistry.Admission.{release_lease}
use al.JobRegistry.Events.{update_progress, cap_line, append_log, terminate}
use al.JobRegistry.Ring.{Numbered, Ringed}
use al.JobRegistry.Ring.Kept.{Run-Rings}
use al.JobRegistry.Runs.{
  Step, acquire, acquire_lease, release, progress, log, finish, listeners, Run, start, then_step,
}
use al.JobRegistry.Ring.History.{
  lasts, after_progress, after_line, after_end, after_step, events_of, Recorded,
}
use al.JobRegistry.State.{find_entry}
use al.JobRegistry.Everywhere.{All-find}
use al.JobRegistry.Ring.Replay.{newer_than-all, oldest_seq-Numbered}
use al.JobRegistry.Events.{
  Subscription, stream, gap, oldest_seq, newer_than, subscribe_entry, subscribe_events,
}
use al.Prelude.Windows.{drop-add}
use al.Prelude.{◌⊎◌, ◌&&◌, ◌||◌}
use al.JobRegistry.Ring.Records.{At}
use al.JobRegistry.Ring.Steps.{
  progress_other-At, progress-At, log_other-At, log-At, end_other-At, end-At,
}
use al.JobRegistry.Ring.Admits.{acquire-At, lease-At}

-- A step on the job `j`, seen from the job `id`.
either-At :
    (r s : Registry) (id j : JobId) (h h' : List JobEvent)
    → (j ≡ id → At id s h')
    → (j ≢ id → At id s h)
    → At id s (if j == id then h' else h)
either-At r s id j h h' here there = elim (ℕ_discrete j id) [
  | yes same ↦ rw ((==_iff j id).1 same) (here same)
  | no ne ↦ rw (==_false j id ne) (there ne)
]

Step-At :
    (r s : Registry) (step : Step r s) (id : JobId) (h : List JobEvent)
    → At id r h
    → At id s (after_step step id h)
unfolding after_step
Step-At r s (acquire t refs path fresh at) id h all = acquire-At r id t refs path fresh at h all
Step-At r s (acquire_lease refs) id h all = lease-At r id refs h all
Step-At r s (release lease) id h all = unfold At in unfold release_lease in all
Step-At r s (progress j p now at) id h all =
    let h' : List JobEvent =
      after_progress r.cfg.progress_throttle p now at h (find_entry id r.jobs.entries) in
    either-At r _ id j h h'
      (λ same.
        subst (λ k. At id (update_progress r k p now at) h') (sym same)
          (progress-At r id p now at h all))
      (λ ne. progress_other-At r id j p now at h ne all)
Step-At r s (log j message at) id h all =
    let h' : List JobEvent =
      after_line at h (cap_line r.cfg.max_log_line_bytes message) (find_entry id r.jobs.entries) in
    either-At r _ id j h h'
      (λ same.
        subst (λ k. At id (append_log r k message at) h') (sym same) (log-At r id message at h all))
      (λ ne. log_other-At r id j message at h ne all)
Step-At r s (finish j state result at ends) id h all =
    let h' : List JobEvent = after_end state at h (find_entry id r.jobs.entries) in
    either-At r _ id j h h'
      (λ same.
        subst (λ k. At id (terminate r k state result at) h') (sym same)
          (end-At r id state result at h all))
      (λ ne. end_other-At r id j state result at h ne all)
Step-At r s (listeners n) id h all = unfold At in all

Run-At :
    (cfg : JobRegistryCfg) (r : Registry) (run : Run (new cfg) r) (id : JobId)
    → At id r (events_of run id)
unfolding events_of
Run-At cfg r start id = unfold At in unfold new in unfold find_entry in λ e f. cc
Run-At cfg r (then_step {s = s} run step) id =
    Step-At s r step id (events_of run id) (Run-At cfg s run id)

-- After any sequence of operations from an empty registry, the ring of a job holds exactly the last
-- `max 1 max_job_event_ring` of its events, or all of them if there are fewer, oldest first, as the
-- operations since its admission have made them: each progress that is not throttled, each log
-- line as it is capped, and the end. Its `last_seq` is their count, up to 2^64 - 1, and each event
-- bears its number.
pub Run-Recorded :
    (cfg : JobRegistryCfg) (r : Registry) (run : Run (new cfg) r) (id : JobId) (e : JobEntry)
    → find_entry id r.jobs.entries ≡ some e
    → Recorded r.cfg.max_job_event_ring (events_of run id) e
Run-Recorded cfg r run id e found = unfold At in Run-At cfg r run id e found

newer_than-drop :
    (n after_seq : ℕ) (ring : List JobEvent)
    → Numbered n ring
    → newer_than after_seq ring ≡ drop (suc after_seq - n) ring
unfolding Numbered newer_than
newer_than-drop n after_seq [] h = sym (drop-nil (suc after_seq - n))
newer_than-drop n after_seq (x ∷ xs) h = elim (Bool-cases (ltb after_seq x.seq)) [
  | inl newer ↦
      let first = h.0 in
      let none_before : suc after_seq - n ≡ 0 = ground arith in
      rw (newer, none_before, newer_than-all (suc n) after_seq xs h.1 (ground arith)) refl
  | inr older ↦
      let first = h.0 in
      let one_more : suc after_seq - n ≡ suc (suc after_seq - suc n) = ground arith in
      rw (older, one_more) (newer_than-drop (suc n) after_seq xs h.1)
]

-- What a subscriber gets that has seen the first `after_seq` events: the others, or a gap, if the
-- next of them has left the ring or there are not so many.
pub Missed : ℕ → ℕ → List JobEvent → Subscription → Type 0
Missed m after_seq h (stream s) = s.replay ≡ drop after_seq h
Missed m after_seq h (gap g) =
    ((after_seq < length h - max 1 m) ⊎ (length h < after_seq)) × (g.latest_seq ≡ length h)

subscribe_entry-Missed :
    (m : ℕ) (id : JobId) (after_seq : ℕ) (e : JobEntry) (h : List JobEvent)
    → Ringed m e
    → Recorded m h e
    → e.last_seq < 2 ^ 64 - 1
    → 0 < after_seq
    → Missed m after_seq h (subscribe_entry id after_seq (some e))
unfolding subscribe_entry Missed lasts
subscribe_entry-Missed m id after_seq e h ringed rec small positive =
    let numbered = ringed.numbered small in
    let started = ringed.started in
    let last = rec.last_seq in
    let len : length e.ring ≡ length h - (length h - max 1 m) =
      ap length rec.ring ∙ length-drop (length h - max 1 m) h in
    let front = oldest_seq-Numbered (e.last_seq + 1 - length e.ring) e.ring numbered in
    elim (Bool-cases
      (ltb 0 after_seq && (ltb after_seq (oldest_seq e.ring - 1) || ltb e.last_seq after_seq))) [
        | inl lost ↦ rw lost (ground arith, ground arith)
        | inr kept ↦ rw kept (
            let from : ℕ = length h - max 1 m in
            let reach : from ≤ after_seq = ground arith in
            let skip : suc after_seq - (e.last_seq + 1 - length e.ring) ≡ after_seq - from =
              omega arith in
            let total : from + (after_seq - from) ≡ after_seq = omega arith in
            newer_than-drop _ after_seq e.ring numbered
            ∙ ap₂ drop skip rec.ring
            ∙ drop-add from (after_seq - from) h
            ∙ ap (λ k. drop k h) total)
      ]

-- For a job of a registry that any operations have led to, and a cursor above 0, a subscription
-- replays exactly the events of the job but the first `after_seq`, or it reports a gap with the
-- number of the last event; and it reports a gap only if the event after the cursor has left the
-- ring or the cursor is ahead of the job. The job's numbers must not have saturated.
pub subscribe_events-Missed :
    (cfg : JobRegistryCfg) (r : Registry) (run : Run (new cfg) r) (id : JobId) (after_seq : ℕ)
    (e : JobEntry)
    → find_entry id r.jobs.entries ≡ some e
    → e.last_seq < 2 ^ 64 - 1
    → 0 < after_seq
    → Missed r.cfg.max_job_event_ring after_seq (events_of run id) (subscribe_events r id after_seq)
unfolding subscribe_events
subscribe_events-Missed cfg r run id after_seq e found small positive = rw found (
    subscribe_entry-Missed r.cfg.max_job_event_ring id after_seq e (events_of run id)
      (All-find _ id r.jobs.entries e (Run-Rings cfg r run) found)
      (Run-Recorded cfg r run id e found) small positive)
