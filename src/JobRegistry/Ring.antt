-- ===== src/JobRegistry/Ring.antt =====
-- job_registry.rs: the ring of each job's events.
pub mod Kept
pub mod Replay
pub mod History
pub mod Records
pub mod Steps
pub mod Admits
pub mod LastEvents
use al.Prelude.{
  ℕ, zero, suc, ◌+◌, ◌-◌, ◌^◌, ◌≤◌, ◌<◌, max, min, ◌≡◌, refl, sym, ap, subst₂, ◌∙◌, Bool, true,
  false, Option, none, some, List, [], ◌∷◌, ◌++◌, arith, Bool-cases, Option-cases, inl, inr, leb,
  ltb, ◌==◌, if◌then◌else◌, All, subst, length, length-append, get_elem?,
}
use al.JobRegistry.Types.{
  JobId, JobType, JobReference, TargetPath, JobState, is_active, JobResult, JobProgress, JobEntry,
  JobEvent, JobRegistryCfg, is_workspace_delete,
}
use al.JobRegistry.State.{
  JobsState, Registry, new, find_entry, set_entry, remove_entry, is_terminal_entry, prune_at,
  prune_from, prune_recent,
}
use al.JobRegistry.Events.{next_seq, pop_front, push_event, emit}

-- The numbers of the events count up from the first.
pub Numbered : ℕ → List JobEvent → Type 0
Numbered n [] = Unit
Numbered n (e ∷ es) = (e.seq ≡ n) × Numbered (suc n) es

-- The ring is within its bound and empty only before the first event; while the numbers have not
-- saturated, its events are numbered without a hole up to `last_seq`.
pub record Ringed (max_ring : ℕ) (e : JobEntry) : Type 0 where
  pub bound : length e.ring ≤ max 1 max_ring
  pub fits : e.last_seq < 2 ^ 64 - 1 → length e.ring ≤ e.last_seq
  pub started : 0 < e.last_seq → 0 < length e.ring
  pub numbered : e.last_seq < 2 ^ 64 - 1 → Numbered (e.last_seq + 1 - length e.ring) e.ring

Numbered-snoc :
    (n : ℕ) (ring : List JobEvent) (event : JobEvent)
    → Numbered n ring
    → event.seq ≡ n + length ring
    → Numbered n (ring ++ event ∷ [])
unfolding Numbered
Numbered-snoc n [] event h e = (omega arith, tt)
Numbered-snoc n (x ∷ xs) event h e = (h.0, Numbered-snoc (suc n) xs event h.1 (omega arith))

Numbered-pop_front :
    (n : ℕ) (ring : List JobEvent)
    → Numbered n ring
    → Numbered (n + min 1 (length ring)) (pop_front ring)
unfolding Numbered pop_front
Numbered-pop_front n [] h = tt
Numbered-pop_front n (x ∷ xs) h = subst (λ k. Numbered k xs) (omega arith) h.1

length-pop_front : (ring : List JobEvent) → length (pop_front ring) ≡ length ring - 1
unfolding pop_front
length-pop_front [] = omega arith
length-pop_front (x ∷ xs) = omega arith

length-push_event :
    (ring : List JobEvent) (event : JobEvent) (m : ℕ)
    → length (push_event ring event m)
      ≡ (if leb m (length ring) then length ring - 1 + 1 else length ring + 1)
unfolding push_event
length-push_event ring event m = elim (Bool-cases (leb m (length ring))) [
  | inl t ↦ rw (t, length-append, length-pop_front) refl
  | inr t ↦ rw (t, length-append) refl
]

Numbered-push_event :
    (n : ℕ) (ring : List JobEvent) (event : JobEvent) (m : ℕ)
    → Numbered n ring
    → event.seq ≡ n + length ring
    → Numbered (event.seq + 1 - length (push_event ring event m)) (push_event ring event m)
unfolding push_event
Numbered-push_event n ring event m h q = elim (Bool-cases (leb m (length ring))) [
  | inl t ↦ rw t (
      let len = length-append (pop_front ring) (event ∷ []) in
      let popped = length-pop_front ring in
      let from : n + min 1 (length ring) ≡ event.seq + 1 - length (pop_front ring ++ event ∷ []) =
        omega arith in
      subst (λ k. Numbered k (pop_front ring ++ event ∷ [])) from
        (Numbered-snoc _ (pop_front ring) event (Numbered-pop_front n ring h) (omega arith)))
  | inr t ↦ rw t (
      let len = length-append ring (event ∷ []) in
      let from : n ≡ event.seq + 1 - length (ring ++ event ∷ []) = omega arith in
      subst (λ k. Numbered k (ring ++ event ∷ [])) from (Numbered-snoc n ring event h q))
]

-- The next event keeps the ring what it is.
pub Ringed-push_event :
    (m : ℕ) (e e' : JobEntry) (event : JobEvent)
    → Ringed m e
    → event.seq ≡ next_seq e.last_seq
    → e'.last_seq ≡ event.seq
    → e'.ring ≡ push_event e.ring event m
    → Ringed m e'
Ringed-push_event m e e' event h q same pushed =
    let len : length e'.ring
        ≡ (if leb m (length e.ring) then length e.ring - 1 + 1 else length e.ring + 1) =
      ap length pushed ∙ length-push_event e.ring event m in
    let bound = h.bound in
    let fits = h.fits in
    let started = h.started in
    record {
      bound = ground arith;
      fits = λ small. ground arith;
      started = λ p. ground arith;
      numbered = λ small.
          let before : e.last_seq < 2 ^ 64 - 1 = ground arith in
          let old_fits = fits before in
          subst₂ (λ k r. Numbered (k + 1 - length r) r) (sym same) (sym pushed)
            (Numbered-push_event _ e.ring event m (h.numbered before) (ground arith));
    }
