-- ===== src/JobRegistry/Ring/History.antt =====
-- job_registry.rs: every event of a job, as the operations are said to make them, and its ring.
use al.Prelude.{
  ℕ, ◌+◌, ◌-◌, ◌^◌, ◌≡◌, min, max, Option, none, some, List, [], ◌∷◌, ◌++◌, ◌==◌, if◌then◌else◌,
  length, drop, Outcome, returns, panics,
}
use al.JobRegistry.Types.{JobId, JobState, is_active, JobProgress, JobEntry, JobEvent}
use al.JobRegistry.State.{Registry, find_entry}
use al.JobRegistry.Admission.{Admission, admitted, refused, try_acquire}
use al.JobRegistry.Events.{is_throttled, cap_line}
use al.JobRegistry.Runs.{
  Step, acquire, acquire_lease, release, progress, log, finish, listeners, Run, start, then_step,
}

-- The last `n` of a list.
unfoldable pub lasts {ℓ} : {A : Type ℓ} → ℕ → List A → List A
lasts n xs = drop (length xs - n) xs

-- One more event, which bears the number of events there are then; numbers stop at 2^64 - 1.
unfoldable pub extend : List JobEvent → (ℕ → JobEvent) → List JobEvent
extend h event = h ++ event (min (length h + 1) (2 ^ 64 - 1)) ∷ []

unfoldable pub progress_event : JobProgress → ℕ → ℕ → JobEvent
progress_event p at n = record { seq = n; at = at; state = none; progress = some p; message = none }

unfoldable pub line_event : List ℕ → ℕ → ℕ → JobEvent
line_event line at n = record {
  seq = n;
  at = at;
  state = none;
  progress = none;
  message = some line;
}

unfoldable pub end_event : JobState → Option JobProgress → ℕ → ℕ → JobEvent
end_event state p at n = record {
  seq = n;
  at = at;
  state = some state;
  progress = p;
  message = none;
}

-- A progress is an event unless it comes too soon after the last.
unfoldable pub after_progress :
    ℕ → JobProgress → ℕ → ℕ → List JobEvent → Option JobEntry → List JobEvent
after_progress throttle p now at h none = h
after_progress throttle p now at h (some e) =
    if is_throttled throttle now e.last_progress_at then h else extend h (progress_event p at)

unfoldable pub after_line : ℕ → List JobEvent → Outcome (List ℕ) → Option JobEntry → List JobEvent
after_line at h panics found = h
after_line at h (returns line) none = h
after_line at h (returns line) (some e) = extend h (line_event line at)

-- The end of a job is an event if it was active.
unfoldable pub after_end : JobState → ℕ → List JobEvent → Option JobEntry → List JobEvent
after_end state at h none = h
after_end state at h (some e) =
    if is_active e.state then extend h (end_event state e.progress at) else h

-- A job that is admitted has no event yet.
unfoldable pub after_admission : List JobEvent → Admission → List JobEvent
after_admission h (admitted id) = []
after_admission h (refused conflict) = h

-- The events of a job after a step, of those before it.
unfoldable pub after_step : {r s : Registry} → Step r s → JobId → List JobEvent → List JobEvent
after_step {r} (acquire t refs path fresh at) id h =
    if fresh == id then after_admission h (try_acquire r t refs path fresh at).0 else h
after_step (acquire_lease refs) id h = h
after_step (release lease) id h = h
after_step {r} (progress j p now at) id h =
    if j == id
    then after_progress r.cfg.progress_throttle p now at h (find_entry id r.jobs.entries)
    else h
after_step {r} (log j message at) id h =
    if j == id
    then after_line at h (cap_line r.cfg.max_log_line_bytes message) (find_entry id r.jobs.entries)
    else h
after_step {r} (finish j state result at ends) id h =
    if j == id then after_end state at h (find_entry id r.jobs.entries) else h
after_step (listeners n) id h = h

-- The events of a job since its admission.
unfoldable pub events_of : {r s : Registry} → Run r s → JobId → List JobEvent
events_of start id = []
events_of (then_step run step) id = after_step step id (events_of run id)

-- The ring has the last events, and the number of the last is their count.
pub record Recorded (m : ℕ) (h : List JobEvent) (e : JobEntry) : Type 0 where
  pub ring : e.ring ≡ lasts (max 1 m) h
  pub last_seq : e.last_seq ≡ min (length h) (2 ^ 64 - 1)
