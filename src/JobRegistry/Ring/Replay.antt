-- ===== src/JobRegistry/Ring/Replay.antt =====
-- job_registry.rs: what a subscription replays.
use al.Prelude.{ℕ, suc, ◌+◌, ◌-◌, ◌^◌, ◌<◌, ◌≡◌, ◌⊎◌, refl, some, List, [], ◌∷◌, arith, length}
use al.JobRegistry.Types.{JobId, JobEntry, JobEvent, JobRegistryCfg}
use al.JobRegistry.State.{Registry, new, find_entry}
use al.JobRegistry.Events.{
  EventStream, Subscription, stream, gap, oldest_seq, newer_than, subscribe_entry, subscribe_events,
}
use al.JobRegistry.Everywhere.{All-find}
use al.JobRegistry.Ring.{Numbered}
use al.JobRegistry.Ring.Kept.{Run-Rings}
use al.JobRegistry.Runs.{Run}

pub newer_than-all :
    (n after_seq : ℕ) (ring : List JobEvent)
    → Numbered n ring
    → after_seq < n
    → newer_than after_seq ring ≡ ring
unfolding Numbered newer_than
newer_than-all n after_seq [] h lt = refl
newer_than-all n after_seq (x ∷ xs) h lt =
    let rest = newer_than-all (suc n) after_seq xs h.1 (omega arith) in let q = h.0 in ground arith

pub oldest_seq-Numbered :
    (n : ℕ) (ring : List JobEvent) → Numbered n ring → 0 < length ring → oldest_seq ring ≡ n
unfolding Numbered oldest_seq
oldest_seq-Numbered n [] h p = absurd (omega arith)
oldest_seq-Numbered n (x ∷ xs) h p = h.0

module _ (after_seq : ℕ) (e : JobEntry) where
  -- The replay has every event after the cursor, in order and once.
  pub Replays : Subscription → Type 0
  Replays (stream s) =
      Numbered (suc after_seq) s.replay × (after_seq + length s.replay ≡ e.last_seq)
  Replays (gap g) =
      ((suc after_seq < g.oldest_seq) ⊎ (e.last_seq < after_seq))
      × (0 < e.last_seq → g.oldest_seq + length e.ring ≡ suc e.last_seq)
      × (g.latest_seq ≡ e.last_seq)

-- With the cursor 0 there is never a gap: the replay is the job's ring, so it starts with the
-- oldest event there, number `last_seq + 1 - length ring`, though events before it may be lost.
pub subscribe_events-from_zero :
    (cfg : JobRegistryCfg) (r : Registry) (id : JobId) (e : JobEntry)
    → Run (new cfg) r
    → find_entry id r.jobs.entries ≡ some e
    → e.last_seq < 2 ^ 64 - 1
    → (s : EventStream) × (subscribe_events r id 0 ≡ stream s)
      × (s.replay ≡ e.ring)
      × Numbered (e.last_seq + 1 - length e.ring) s.replay
unfolding subscribe_events subscribe_entry
subscribe_events-from_zero cfg r id e run h small =
    let ringed = All-find _ id r.jobs.entries e (Run-Rings cfg r run) h in
    let numbered = ringed.numbered small in
    let fits = ringed.fits small in
    let whole = newer_than-all (e.last_seq + 1 - length e.ring) 0 e.ring numbered (omega arith) in
    rw (h, subscribe_entry) (_, refl, whole, rw whole numbered)
