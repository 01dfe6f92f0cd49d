-- ===== src/JobRegistry/Events.antt =====
-- job_registry.rs: progress, log lines, the end of a job, and subscriptions.
-- `now` is what `Instant::now` returns, and `at` what `now_rfc3339` returns.
use al.Prelude.{
  ℕ, ◌+◌, ◌-◌, ◌^◌, min, max, Bool, false, ◌&&◌, ◌||◌, not, Option, none, some, List, [], ◌∷◌, ◌++◌,
  leb, ltb, ◌==◌, if◌then◌else◌, length, Outcome, returns, panics,
}
use al.Prelude.Utf8.{ascii, truncate, push_str}
use al.Common.LogTruncate.{snap_down}
use al.JobRegistry.Types.{
  JobId, JobState, is_active, JobResult, JobProgress, JobEvent, JobEntry, EventGap,
}
use al.JobRegistry.State.{fetch_add_one, Registry, find_entry, set_entry, prune_recent}

-- `u64::saturating_add(1)`
abbrev pub next_seq : ℕ → ℕ
next_seq n = min (n + 1) (2 ^ 64 - 1)

unfoldable pub pop_front : List JobEvent → List JobEvent
pop_front [] = []
pop_front (e ∷ es) = es

-- `JobEntry::push_event`: the ring after it.
unfoldable pub push_event : List JobEvent → JobEvent → ℕ → List JobEvent
push_event ring event max_ring =
    (if leb max_ring (length ring) then pop_front ring else ring) ++ event ∷ []

-- `JobEntry::push_event`: the count of dropped events after it.
unfoldable pub count_dropped : List JobEvent → ℕ → ℕ → ℕ
count_dropped ring max_ring dropped =
    if leb max_ring (length ring) then fetch_add_one dropped else dropped

-- `send_or_count_drop`; with a receiver, the channel takes the event.
unfoldable pub send_or_count_drop :
    List (JobId × JobEvent) → ℕ → JobId → JobEvent → List (JobId × JobEvent)
send_or_count_drop broadcast receivers job_id event =
    if receivers == 0 then broadcast else broadcast ++ (job_id, event) ∷ []

-- The entry is written back with its next event, which goes to the ring and to the channel.
unfoldable pub emit : Registry → JobId → JobEntry → JobEvent → Registry
emit r id e event = record r {
  jobs = record r.jobs {
    entries =
        set_entry id
          (record e {
            last_seq = event.seq;
            updated_at = event.at;
            ring = push_event e.ring event r.cfg.max_job_event_ring;
          })
          r.jobs.entries;
  };
  counters = record r.counters {
    events_dropped_total =
        count_dropped e.ring r.cfg.max_job_event_ring r.counters.events_dropped_total;
  };
  broadcast = send_or_count_drop r.broadcast r.receivers id event;
}

-- `match entries.get_mut(&job_id) { Some(e) => e, None => return }`
unfoldable pub with_entry : Option JobEntry → Registry → (JobEntry → Registry) → Registry
with_entry none r body = r
with_entry (some e) r body = body e

-- Whether the last progress event is too recent.
unfoldable pub is_throttled : ℕ → ℕ → Option ℕ → Bool
is_throttled throttle now none = false
is_throttled throttle now (some prev) = ltb (now - prev) throttle

unfoldable pub progress_entry : Registry → JobId → JobProgress → ℕ → ℕ → JobEntry → Registry
progress_entry r id progress now at e =
    let latest = record e { progress = some progress } in
    if is_throttled r.cfg.progress_throttle now e.last_progress_at
    then record r {
      jobs = record r.jobs { entries = set_entry id latest r.jobs.entries };
      counters = record r.counters {
        progress_throttled_total = fetch_add_one r.counters.progress_throttled_total;
      };
    }
    else emit r id (record latest { last_progress_at = some now })
        (record {
          seq = next_seq e.last_seq;
          at = at;
          state = none;
          progress = some progress;
          message = none;
        })

-- `JobRegistry::update_progress`
unfoldable pub update_progress : Registry → JobId → JobProgress → ℕ → ℕ → Registry
update_progress r id progress now at =
    with_entry (find_entry id r.jobs.entries) r (λ e. progress_entry r id progress now at e)

abbrev pub suffix : List ℕ
suffix = ascii " ... [truncated]"

-- The line as `append_log` cuts it.
unfoldable pub cap_line : ℕ → List ℕ → Outcome (List ℕ)
unfolding truncate push_str
cap_line max_bytes message =
    if ltb max_bytes (length message)
    then push_str (truncate message (snap_down message (max (max_bytes - length suffix) 1))) suffix
    else returns message

unfoldable pub count_truncated : ℕ → List ℕ → Registry → Registry
count_truncated max_bytes message r =
    if ltb max_bytes (length message)
    then record r {
      counters = record r.counters {
        log_lines_truncated_total = fetch_add_one r.counters.log_lines_truncated_total;
      };
    }
    else r

unfoldable pub log_entry : Registry → JobId → List ℕ → ℕ → JobEntry → Registry
log_entry r id line at e = emit r id e (record {
  seq = next_seq e.last_seq;
  at = at;
  state = none;
  progress = none;
  message = some line;
})

-- A panic of `truncate` comes before the lock is taken.
unfoldable pub with_line : Outcome (List ℕ) → Registry → (List ℕ → Registry) → Registry
with_line (returns line) r body = body line
with_line panics r body = r

-- `JobRegistry::append_log`: the registry after it, also if it panics.
unfoldable pub append_log : Registry → JobId → List ℕ → ℕ → Registry
append_log r id message at =
    let counted = count_truncated r.cfg.max_log_line_bytes message r in
    with_line (cap_line r.cfg.max_log_line_bytes message) counted (λ line.
      with_entry (find_entry id r.jobs.entries) counted (λ e. log_entry counted id line at e))

-- `if result.is_some() { entry.result = result }`
unfoldable pub keep_result : Option JobResult → Option JobResult → Option JobResult
keep_result none old = old
keep_result (some result) old = some result

unfoldable pub ended_entry : JobState → Option JobResult → JobEntry → JobEntry
ended_entry state result e = record e {
  state = state;
  result = keep_result result e.result;
  references = [];
}

-- The event of the end.
unfoldable pub terminal_event : JobState → ℕ → JobEntry → JobEvent
terminal_event state at e = record {
  seq = next_seq e.last_seq;
  at = at;
  state = some state;
  progress = e.progress;
  message = none;
}

unfoldable pub prune_jobs : Registry → Registry
prune_jobs r = record r { jobs = prune_recent r.jobs r.cfg.max_recent_jobs }

unfoldable pub terminate_entry :
    Registry → JobId → JobState → Option JobResult → ℕ → JobEntry → Registry
terminate_entry r id state result at e =
    if is_active e.state
    then prune_jobs (emit r id (ended_entry state result e) (terminal_event state at e))
    else r

-- `JobRegistry::terminate`
unfoldable pub terminate : Registry → JobId → JobState → Option JobResult → ℕ → Registry
terminate r id state result at =
    with_entry (find_entry id r.jobs.entries) r (λ e. terminate_entry r id state result at e)

pub record EventStream : Type 0 where
  pub replay : List JobEvent
  pub job_id : JobId
  pub terminal_seen : Bool

pub data Subscription : Type 0 where
  stream : EventStream → Subscription
  gap : EventGap → Subscription

-- `entry.ring.front().map(|e| e.seq).unwrap_or(0)`
unfoldable pub oldest_seq : List JobEvent → ℕ
oldest_seq [] = 0
oldest_seq (e ∷ es) = e.seq

-- `filter(|e| e.seq > after_seq)`
unfoldable pub newer_than : ℕ → List JobEvent → List JobEvent
newer_than after_seq [] = []
newer_than after_seq (e ∷ es) =
    let rest = newer_than after_seq es in if ltb after_seq e.seq then e ∷ rest else rest

unfoldable pub subscribe_entry : JobId → ℕ → Option JobEntry → Subscription
subscribe_entry id after_seq none =
    stream (record { replay = []; job_id = id; terminal_seen = false })
subscribe_entry id after_seq (some e) =
    let oldest = oldest_seq e.ring in
    let latest = e.last_seq in
    if ltb 0 after_seq && (ltb after_seq (oldest - 1) || ltb latest after_seq)
    then gap (record { oldest_seq = oldest; latest_seq = latest })
    else stream (record {
      replay = newer_than after_seq e.ring;
      job_id = id;
      terminal_seen = not (is_active e.state);
    })

-- `JobRegistry::subscribe_events`, without the live receiver.
unfoldable pub subscribe_events : Registry → JobId → ℕ → Subscription
subscribe_events r id after_seq = subscribe_entry id after_seq (find_entry id r.jobs.entries)
