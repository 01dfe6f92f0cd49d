-- ===== src/JobRegistry/Tests.antt =====
-- job_registry.rs: the theorems at concrete registries.
use al.Prelude.{
  ℕ, ◌+◌, ◌≤◌, max, ◌≡◌, refl, false, none, some, List, [], ◌∷◌, arith, length, returns, ◌-◌,
}
use al.Prelude.Utf8.{
  ascii, is_utf8, is_utf8_from, lead, is_char_boundary, truncate, slice_to, push_str,
}
use al.Prelude.Utf8.Text.{Text}
use al.Prelude.Utf8.Valid.{Text-iff_is_utf8}
use al.JobRegistry.Types.{
  train, workspace, running, succeeded, failed, JobEntry, JobEvent, default_cfg,
}
use al.JobRegistry.State.{Registry, new, find_entry}
use al.JobRegistry.State
use al.JobRegistry.Admission
use al.JobRegistry.Events
use al.JobRegistry.Admission.{try_acquire, new_entry}
use al.JobRegistry.Events.{
  append_log, update_progress, terminate, cap_line, subscribe_events, EventStream, stream, next_seq,
  is_throttled, suffix,
}
use al.JobRegistry.Handle.{JobHandle, succeed, fail, cancel, drop_handle}
use al.JobRegistry.Runs.{Run, start, then_step, acquire, log, WellFormed, Run-WellFormed}
use al.JobRegistry.Ring.History.{events_of, Recorded}
use al.JobRegistry.Ring.LastEvents.{Run-Recorded, Missed, subscribe_events-Missed}
use al.Common.LogTruncate.{snap_down}
use al.Common.LogTruncate.Cut.{Shortened}
use al.JobRegistry.Retention.Bound.{length-Run}
use al.JobRegistry.Ended.{Ended, handle-Ended, terminate-terminate}
use al.JobRegistry.LogLines.{cap_line-Text}

-- A training of workspace 7, and then a line of its log, and another.
abbrev trained : Registry
trained = (try_acquire (new default_cfg) train (workspace 7 ∷ []) none 1 100).1

abbrev logged : Registry
logged = append_log (append_log trained 1 (ascii "epoch 1") 101) 1 (ascii "epoch 2") 102

run : Run (new default_cfg) logged
run =
    then_step
      (then_step (then_step start (acquire train (workspace 7 ∷ []) none 1 100))
        (log 1 (ascii "epoch 1") 101))
      (log 1 (ascii "epoch 2") 102)

abbrev line : ℕ → ℕ → List ℕ → JobEvent
line seq at message = record {
  seq = seq;
  at = at;
  state = none;
  progress = none;
  message = some message;
}

abbrev job : JobEntry
job = record {
  job_id = 1;
  job_type = train;
  references = workspace 7 ∷ [];
  target_path = none;
  state = running;
  progress = none;
  result = none;
  last_seq = 2;
  updated_at = 102;
  ring = line 1 101 (ascii "epoch 1") ∷ line 2 102 (ascii "epoch 2") ∷ [];
  last_progress_at = none;
}

job_found : find_entry 1 logged.jobs.entries ≡ some job
unfolding find_entry try_acquire append_log Events.with_entry Admission.slot_cap new
    Admission.count_slot Admission.admit Admission.references_conflict Admission.or_else
    Admission.reference_conflict Admission.find_conflict Admission.lease_conflict State.prune_recent
    Admission.insert_entry State.remove_entry new_entry Events.log_entry Events.emit State.set_entry
    Admission.slot_predicate cap_line Events.count_dropped Events.count_truncated Events.push_event
    Events.send_or_count_drop Events.with_line
job_found = refl

Run-WellFormed_example : WellFormed logged
Run-WellFormed_example = Run-WellFormed default_cfg logged run

Run-Recorded_example : Recorded logged.cfg.max_job_event_ring (events_of run 1) job
Run-Recorded_example = Run-Recorded default_cfg logged run 1 job job_found

subscribe_events-Missed_example :
    Missed logged.cfg.max_job_event_ring 1 (events_of run 1) (subscribe_events logged 1 1)
subscribe_events-Missed_example =
    subscribe_events-Missed default_cfg logged run 1 1 job job_found (omega arith) (omega arith)

length-Run_example :
    length logged.jobs.entries
    ≤ max logged.cfg.max_recent_jobs
        (logged.cfg.max_train_jobs + logged.cfg.max_convert_jobs + logged.cfg.max_delete_jobs)
length-Run_example = length-Run default_cfg logged run

abbrev handle : JobHandle
handle = record { job_id = 1; terminated = false }

handle-Ended_example :
    Ended 1 (succeed logged handle none 103)
    × Ended 1 (fail logged handle (ascii "lost") 103)
    × Ended 1 (cancel logged handle 103)
    × Ended 1 (drop_handle logged handle 103)
handle-Ended_example = handle-Ended logged handle none (ascii "lost") 103 refl

terminate-terminate_example :
    terminate (terminate logged 1 succeeded none 103) 1 failed none 104
    ≡ terminate logged 1 succeeded none 103
terminate-terminate_example = terminate-terminate logged 1 succeeded failed none none 103 104 refl

-- `a` and eleven times `é`: 23 bytes, of which the fourth is inside a character.
abbrev long_line : List ℕ
long_line =
    97 ∷ 195 ∷ 169 ∷ 195 ∷ 169 ∷ 195 ∷ 169 ∷ 195 ∷ 169 ∷ 195 ∷ 169 ∷ 195 ∷ 169 ∷ 195 ∷ 169 ∷ 195
    ∷ 169 ∷ 195 ∷ 169 ∷ 195 ∷ 169 ∷ 195 ∷ 169 ∷ []

long_line-Text : Text long_line
unfolding is_utf8 is_utf8_from lead
long_line-Text = (Text-iff_is_utf8 long_line).1 refl

-- Three bytes are kept.
cut_line : cap_line 20 long_line ≡ returns (97 ∷ 195 ∷ 169 ∷ suffix)
unfolding cap_line snap_down is_char_boundary truncate slice_to push_str
cut_line = refl

cap_line-Text_example :
    (s : List ℕ) × (cap_line 20 long_line ≡ returns s)
    × Shortened long_line 20 (max (20 - 16) 1) suffix s
    × (length s ≤ max 20 17)
cap_line-Text_example = cap_line-Text 20 long_line long_line-Text
