-- ===== src/JobRegistry/Shrinks.antt =====
-- job_registry.rs: every operation but an admission leaves each job with the type it had, active
-- only if it was, with no new references, and adds no job.
use al.Prelude.{
  subst, ℕ, zero, suc, ◌≤◌, ◌≡◌, refl, sym, ◌∙◌, ap, Bool, true, Option, none, some, List, arith,
  leb, Bool-cases, inl, inr, get_elem?, length, ℕ_discrete,
}
use al.JobRegistry.Types.{JobId, WorkspaceId, JobType, is_active, JobEntry}
use al.JobRegistry.State.{
  JobsState, find_entry, set_entry, remove_entry, is_terminal_entry, prune_at, prune_from,
  prune_recent,
}
use al.JobRegistry.Admission.{refers_to, holds_slot, count_slot}
use al.JobRegistry.Entries.{
  find_entry-remove, find_entry-set_self, find_entry-set_ne, count_slot-remove, count_slot-set,
}

pub record Weaker (e' e : JobEntry) : Type 0 where
  pub job_type : e'.job_type ≡ e.job_type
  pub active : is_active e'.state ≡ true → is_active e.state ≡ true
  pub references :
      (ws : WorkspaceId) → refers_to ws e'.references ≡ true → refers_to ws e.references ≡ true

pub record Shrinks (es es' : List JobEntry) : Type 0 where
  pub found :
      (id : JobId) (e' : JobEntry)
      → find_entry id es' ≡ some e'
      → (e : JobEntry) × (find_entry id es ≡ some e) × Weaker e' e
  pub counts : (in_slot : JobType → Bool) → count_slot in_slot es' ≤ count_slot in_slot es

pub Weaker-refl : (e : JobEntry) → Weaker e e
Weaker-refl e = record { job_type = refl; active = λ h. h; references = λ ws h. h }

pub Shrinks-refl : (es : List JobEntry) → Shrinks es es
Shrinks-refl es = record {
  found = λ id e' h. (e', h, Weaker-refl e');
  counts = λ in_slot. omega arith;
}

pub Shrinks-trans : {a b c : List JobEntry} → Shrinks a b → Shrinks b c → Shrinks a c
Shrinks-trans p q = record {
  found = λ id e' h.
      let (m, hm, wm) = q.found id e' h in
      let (e, he, we) = p.found id m hm in
      (
        e,
        he,
        record {
          job_type = wm.job_type ∙ we.job_type;
          active = λ h. we.active (wm.active h);
          references = λ ws h. we.references ws (wm.references ws h);
        },
      );
  counts = λ in_slot. omega (arith, p.counts in_slot, q.counts in_slot);
}

pub Shrinks-remove : (id : JobId) (es : List JobEntry) → Shrinks es (remove_entry id es)
Shrinks-remove id es = record {
  found = λ j e' h. (e', ground (arith, find_entry-remove id j es), Weaker-refl e');
  counts = λ in_slot. count_slot-remove in_slot id es;
}

holds_slot-Weaker :
    (in_slot : JobType → Bool) (e' e : JobEntry)
    → Weaker e' e
    → holds_slot in_slot e' ≡ true
    → holds_slot in_slot e ≡ true
unfolding holds_slot
holds_slot-Weaker in_slot e' e w h =
    let kept : in_slot e'.job_type ≡ in_slot e.job_type = ap in_slot w.job_type in ground arith

pub Shrinks-set :
    (id : JobId) (es : List JobEntry) (e' e : JobEntry)
    → find_entry id es ≡ some e
    → e'.job_id ≡ id
    → Weaker e' e
    → Shrinks es (set_entry id e' es)
Shrinks-set id es e' e h same w = record {
  found = λ j x hx. elim (ℕ_discrete id j) [
    | yes at ↦
        let both : some x ≡ some e' =
          sym hx
          ∙ (ap (λ k. find_entry k (set_entry id e' es)) (sym at)
              ∙ find_entry-set_self id es e' e same h) in
        let new : x ≡ e' = cc in
        (e, ap (λ k. find_entry k es) (sym at) ∙ h, subst (λ y. Weaker y e) (sym new) w)
    | no other ↦ (x, sym (find_entry-set_ne id j es e' same other) ∙ hx, Weaker-refl x)
  ];
  counts = λ in_slot. count_slot-set in_slot id es e' e h (holds_slot-Weaker in_slot e' e w);
}

Shrinks-prune_at :
    (i : ℕ) (id : Option JobId) (s : JobsState) → Shrinks s.entries (prune_at i id s).entries
unfolding prune_at
Shrinks-prune_at i none s = Shrinks-refl s.entries
Shrinks-prune_at i (some id) s = elim (Bool-cases (is_terminal_entry (find_entry id s.entries))) [
  | inl e ↦ rw e (Shrinks-remove id s.entries)
  | inr e ↦ rw e (Shrinks-refl s.entries)
]

Shrinks-prune_from : (m i : ℕ) (s : JobsState) → Shrinks s.entries (prune_from m i s).entries
unfolding prune_from
Shrinks-prune_from m zero s = Shrinks-refl s.entries
Shrinks-prune_from m (suc i) s = elim (Bool-cases (leb (length s.entries) m)) [
  | inl e ↦ rw e (Shrinks-refl s.entries)
  | inr e ↦ rw e (
      Shrinks-trans (Shrinks-prune_at i (get_elem? s.order i) s)
        (Shrinks-prune_from m i (prune_at i (get_elem? s.order i) s)))
]

pub Shrinks-prune_recent : (s : JobsState) (m : ℕ) → Shrinks s.entries (prune_recent s m).entries
unfolding prune_recent
Shrinks-prune_recent s m = elim (Bool-cases (leb (length s.entries) m)) [
  | inl e ↦ rw e (Shrinks-refl s.entries)
  | inr e ↦ rw e (Shrinks-prune_from m (length s.order) s)
]

leases-prune_at : (i : ℕ) (id : Option JobId) (s : JobsState) → (prune_at i id s).leases ≡ s.leases
unfolding prune_at
leases-prune_at i none s = refl
leases-prune_at i (some id) s = ground arith

leases-prune_from : (m i : ℕ) (s : JobsState) → (prune_from m i s).leases ≡ s.leases
unfolding prune_from
leases-prune_from m zero s = refl
leases-prune_from m (suc i) s = elim (Bool-cases (leb (length s.entries) m)) [
  | inl e ↦ rw e refl
  | inr e ↦ rw e (
      leases-prune_from m i (prune_at i (get_elem? s.order i) s)
      ∙ leases-prune_at i (get_elem? s.order i) s)
]

pub leases-prune_recent : (s : JobsState) (m : ℕ) → (prune_recent s m).leases ≡ s.leases
unfolding prune_recent
leases-prune_recent s m = elim (Bool-cases (leb (length s.entries) m)) [
  | inl e ↦ rw e refl
  | inr e ↦ rw e (leases-prune_from m (length s.order) s)
]
