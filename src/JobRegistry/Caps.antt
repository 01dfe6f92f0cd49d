-- ===== src/JobRegistry/Caps.antt =====
-- job_registry.rs: the caps on the active jobs of a slot.
use al.Prelude.{
  ◌+◌, ◌≤◌, ◌≡◌, ◌⊎◌, refl, ap, Bool, false, List, arith, leb, inl, inr, if◌then◌else◌,
}
use al.JobRegistry.Types.{
  JobType, train, convert, dataset_delete, converter_delete, training_logs_delete,
  converter_logs_delete, workspace_delete, JobEntry, JobRegistryCfg,
}
use al.JobRegistry.State.{JobsState}
use al.JobRegistry.Admission.{slot_cap, slot_predicate, holds_slot, count_slot, insert_entry}
use al.JobRegistry.Entries.{count_slot-remove}
use al.JobRegistry.Shrinks.{Shrinks}

pub record Capped (cfg : JobRegistryCfg) (es : List JobEntry) : Type 0 where
  pub slot : (t : JobType) → count_slot (slot_predicate t) es ≤ slot_cap cfg t

pub Capped-Shrinks :
    (cfg : JobRegistryCfg) (es es' : List JobEntry)
    → Shrinks es es'
    → Capped cfg es
    → Capped cfg es'
Capped-Shrinks cfg es es' s c = record {
  slot = λ t. omega (arith, s.counts (slot_predicate t), c.slot t);
}

-- Two job types share a slot, with its cap, or the first is not in the second's.
abbrev SameSlot : JobRegistryCfg → JobType → JobType → Type 0
SameSlot cfg t u =
    (slot_predicate u t ≡ false)
    ⊎ ((slot_predicate u ≡ slot_predicate t) × (slot_cap cfg u ≡ slot_cap cfg t))

same_slot : (cfg : JobRegistryCfg) (t u : JobType) → SameSlot cfg t u
unfolding slot_predicate slot_cap
same_slot cfg t train = elim t as (λ x. SameSlot cfg x train) [
  | train ↦ inr (refl, refl)
  | _ ↦ inl refl
]
same_slot cfg t convert = elim t as (λ x. SameSlot cfg x convert) [
  | convert ↦ inr (refl, refl)
  | _ ↦ inl refl
]
same_slot cfg t dataset_delete = elim t as (λ x. SameSlot cfg x dataset_delete) [
  | train ↦ inl refl
  | convert ↦ inl refl
  | _ ↦ inr (refl, refl)
]
same_slot cfg t converter_delete = elim t as (λ x. SameSlot cfg x converter_delete) [
  | train ↦ inl refl
  | convert ↦ inl refl
  | _ ↦ inr (refl, refl)
]
same_slot cfg t training_logs_delete = elim t as (λ x. SameSlot cfg x training_logs_delete) [
  | train ↦ inl refl
  | convert ↦ inl refl
  | _ ↦ inr (refl, refl)
]
same_slot cfg t converter_logs_delete = elim t as (λ x. SameSlot cfg x converter_logs_delete) [
  | train ↦ inl refl
  | convert ↦ inl refl
  | _ ↦ inr (refl, refl)
]
same_slot cfg t workspace_delete = elim t as (λ x. SameSlot cfg x workspace_delete) [
  | train ↦ inl refl
  | convert ↦ inl refl
  | _ ↦ inr (refl, refl)
]

count_slot-insert :
    (in_slot : JobType → Bool) (e : JobEntry) (s : JobsState)
    → count_slot in_slot (insert_entry e s).entries
      ≤ (if in_slot e.job_type then 1 else 0) + count_slot in_slot s.entries
unfolding insert_entry count_slot holds_slot
count_slot-insert in_slot e s = ground (arith, count_slot-remove in_slot e.job_id s.entries)

pub Capped-insert :
    (cfg : JobRegistryCfg) (e : JobEntry) (s : JobsState)
    → leb (slot_cap cfg e.job_type) (count_slot (slot_predicate e.job_type) s.entries) ≡ false
    → Capped cfg s.entries
    → Capped cfg (insert_entry e s).entries
Capped-insert cfg e s room c = record {
  slot = λ t.
      let grown = count_slot-insert (slot_predicate t) e s in
      let before = c.slot t in
      elim (same_slot cfg e.job_type t) [
        | inl other ↦ let kept = rw other at grown in ground arith
        | inr (same, cap_same) ↦
            let counted : count_slot (slot_predicate t) s.entries
                ≡ count_slot (slot_predicate e.job_type) s.entries =
              ap (λ p. count_slot p s.entries) same in
            ground arith
      ];
}
