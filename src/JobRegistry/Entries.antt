-- ===== src/JobRegistry/Entries.antt =====
-- job_registry.rs: the laws of the map of entries.
use al.Prelude.{
  ◌≤◌, ◌≡◌, ◌≢◌, refl, Bool, true, none, some, List, [], ◌∷◌, arith, ◌==◌, if◌then◌else◌, length,
}
use al.JobRegistry.Types.{JobId, JobType, JobEntry}
use al.JobRegistry.State.{find_entry, set_entry, remove_entry}
use al.JobRegistry.Admission.{holds_slot, count_slot}

pub find_entry-job_id :
    (id : JobId) (es : List JobEntry) (e : JobEntry) → find_entry id es ≡ some e → e.job_id ≡ id
unfolding find_entry
find_entry-job_id id [] e h = cc
find_entry-job_id id (x ∷ es) e h = ground (arith, find_entry-job_id id es e)

pub find_entry-remove :
    (id j : JobId) (es : List JobEntry)
    → find_entry j (remove_entry id es) ≡ (if id == j then none else find_entry j es)
unfolding find_entry remove_entry
find_entry-remove id j [] = ground arith
find_entry-remove id j (x ∷ es) = ground (arith, find_entry-remove id j es)

pub find_entry-set_self :
    (id : JobId) (es : List JobEntry) (e' e : JobEntry)
    → e'.job_id ≡ id
    → find_entry id es ≡ some e
    → find_entry id (set_entry id e' es) ≡ some e'
unfolding find_entry set_entry
find_entry-set_self id [] e' e same h = cc
find_entry-set_self id (x ∷ es) e' e same h = ground (arith, find_entry-set_self id es e' e same)

pub find_entry-set_ne :
    (id j : JobId) (es : List JobEntry) (e' : JobEntry)
    → e'.job_id ≡ id
    → id ≢ j
    → find_entry j (set_entry id e' es) ≡ find_entry j es
unfolding find_entry set_entry
find_entry-set_ne id j [] e' same ne = refl
find_entry-set_ne id j (x ∷ es) e' same ne = ground (arith, find_entry-set_ne id j es e' same ne)

pub count_slot-remove :
    (in_slot : JobType → Bool) (id : JobId) (es : List JobEntry)
    → count_slot in_slot (remove_entry id es) ≤ count_slot in_slot es
unfolding count_slot remove_entry
count_slot-remove in_slot id [] = omega arith
count_slot-remove in_slot id (x ∷ es) = ground (arith, count_slot-remove in_slot id es)

pub count_slot-set :
    (in_slot : JobType → Bool) (id : JobId) (es : List JobEntry) (e' e : JobEntry)
    → find_entry id es ≡ some e
    → (holds_slot in_slot e' ≡ true → holds_slot in_slot e ≡ true)
    → count_slot in_slot (set_entry id e' es) ≤ count_slot in_slot es
unfolding count_slot set_entry find_entry
count_slot-set in_slot id [] e' e h keeps = cc
count_slot-set in_slot id (x ∷ es) e' e h keeps = ground (arith, count_slot-set in_slot id es e' e)

pub length-remove_entry_le :
    (id : JobId) (es : List JobEntry) → length (remove_entry id es) ≤ length es
unfolding remove_entry
length-remove_entry_le id [] = omega arith
length-remove_entry_le id (x ∷ es) = ground (arith, length-remove_entry_le id es)

pub length-set_entry :
    (id : JobId) (es : List JobEntry) (e' : JobEntry) → length (set_entry id e' es) ≡ length es
unfolding set_entry
length-set_entry id [] e' = refl
length-set_entry id (x ∷ es) e' = ground (arith, length-set_entry id es e')
