-- ===== src/JobRegistry/Ring/Records.antt =====
-- job_registry.rs: each operation keeps the last events of each job in its ring.
use al.Prelude.{
  ℕ, zero, suc, ◌+◌, ◌-◌, ◌^◌, ◌≤◌, ◌≡◌, ◌≢◌, min, max, refl, sym, ◌∙◌, ap, ap₂, subst, some, List,
  [], ◌∷◌, ◌++◌, arith, Bool-cases, inl, inr, leb, length, length-append, length-drop, drop,
}
use al.JobRegistry.Types.{JobId, JobEntry, JobEvent}
use al.JobRegistry.State.{Registry, find_entry}
use al.JobRegistry.Events.{next_seq, pop_front, push_event, emit}
use al.JobRegistry.Entries.{find_entry-job_id, find_entry-set_self, find_entry-set_ne}
use al.JobRegistry.Ring.History.{lasts, extend, Recorded}

pop_front-drop : (k : ℕ) (h : List JobEvent) → pop_front (drop k h) ≡ drop (suc k) h
unfolding pop_front
pop_front-drop zero [] = refl
pop_front-drop zero (x ∷ xs) = refl
pop_front-drop (suc k) [] = refl
pop_front-drop (suc k) (x ∷ xs) = pop_front-drop k xs

drop-append {ℓ} :
    {A : Type ℓ} (k : ℕ) (xs ys : List A) → k ≤ length xs → drop k (xs ++ ys) ≡ drop k xs ++ ys
drop-append zero xs ys le = refl
drop-append (suc k) [] ys le = absurd (omega arith)
drop-append (suc k) (x ∷ xs) ys le = drop-append k xs ys (omega arith)

empty_lem {ℓ} : {A : Type ℓ} (xs : List A) → length xs ≡ 0 → xs ≡ []
empty_lem [] e = refl
empty_lem (x ∷ xs) e = absurd (omega arith)

-- The ring that has the last events has them after the next, too.
push_event-lasts :
    (m : ℕ) (h : List JobEvent) (event : JobEvent)
    → push_event (lasts (max 1 m) h) event m ≡ lasts (max 1 m) (h ++ event ∷ [])
unfolding push_event lasts pop_front
push_event-lasts m h event =
    let K : ℕ = max 1 m in
    let k : ℕ = length h - K in
    let held = length-drop k h in
    let longer = length-append h (event ∷ []) in
    elim (Bool-cases (leb m (length (drop k h)))) [
      | inl full ↦ elim (Bool-cases (leb K (length h))) [
        | inl enough ↦
            let next : length (h ++ event ∷ []) - K ≡ suc k = ground arith in
            let fits : suc k ≤ length h = ground arith in
            rw (full, pop_front-drop k h, next) (sym (drop-append (suc k) h (event ∷ []) fits))
        | inr few ↦
            let none_yet : h ≡ [] = empty_lem h (ground arith) in
            let one : K ≡ 1 = ground arith in rw full (rw (one, none_yet) refl)
      ]
      | inr room ↦
          let all : k ≡ 0 = ground arith in
          let all' : length (h ++ event ∷ []) - K ≡ 0 = ground arith in rw (room, all, all') refl
    ]

Recorded-extend :
    (m : ℕ) (h : List JobEvent) (event : ℕ → JobEvent) (e0 e : JobEntry)
    → Recorded m h e0
    → ((n : ℕ) → (event n).seq ≡ n)
    → e.last_seq ≡ (event (next_seq e0.last_seq)).seq
    → e.ring ≡ push_event e0.ring (event (next_seq e0.last_seq)) m
    → Recorded m (extend h event) e
unfolding extend
Recorded-extend m h event e0 e rec seq last ring =
    let number : ℕ = min (length h + 1) (2 ^ 64 - 1) in
    let last_seq = rec.last_seq in
    let same : next_seq e0.last_seq ≡ number = omega arith in
    let longer = length-append h (event number ∷ []) in
    record {
      ring =
          ring
          ∙ ap₂ (λ r n. push_event r (event n) m) rec.ring same
          ∙ push_event-lasts m h (event number);
      last_seq = last ∙ seq (next_seq e0.last_seq) ∙ omega arith;
    }

-- What is claimed of the job's entry, if the registry has it.
unfoldable pub At : JobId → Registry → List JobEvent → Type 0
At id r h =
    (e : JobEntry) → find_entry id r.jobs.entries ≡ some e → Recorded r.cfg.max_job_event_ring h e

pub some-injective : (a b : JobEntry) → some a ≡ some b → a ≡ b
some-injective a b e = cc

pub emit-At :
    (r : Registry) (id : JobId) (e0 e : JobEntry) (h : List JobEvent) (event : ℕ → JobEvent)
    → At id r h
    → find_entry id r.jobs.entries ≡ some e0
    → e.job_id ≡ e0.job_id
    → e.ring ≡ e0.ring
    → ((n : ℕ) → (event n).seq ≡ n)
    → At id (emit r id e (event (next_seq e0.last_seq))) (extend h event)
unfolding emit At
emit-At r id e0 e h event all found same ring seq x f =
    let written =
      find_entry-set_self id r.jobs.entries _ e0
        (same ∙ find_entry-job_id id r.jobs.entries e0 found) found in
    let is = some-injective _ x (sym written ∙ f) in
    let m = r.cfg.max_job_event_ring in
    subst (Recorded m (extend h event)) is (
      Recorded-extend m h event e0 _ (all e0 found) seq refl
        (ap (λ old. push_event old (event (next_seq e0.last_seq)) m) ring))

-- Another job's entry is what it was.
pub emit_other-At :
    (r : Registry) (id j : JobId) (e : JobEntry) (h : List JobEvent) (event : JobEvent)
    → At id r h
    → e.job_id ≡ j
    → j ≢ id
    → At id (emit r j e event) h
unfolding emit At
emit_other-At r id j e h event all same ne x f =
    all x (sym (find_entry-set_ne j id r.jobs.entries _ same ne) ∙ f)

pub Recorded-same :
    (m : ℕ) (h : List JobEvent) (e0 e : JobEntry)
    → e.ring ≡ e0.ring
    → e.last_seq ≡ e0.last_seq
    → Recorded m h e0
    → Recorded m h e
Recorded-same m h e0 e p q rec = record { ring = p ∙ rec.ring; last_seq = q ∙ rec.last_seq }
