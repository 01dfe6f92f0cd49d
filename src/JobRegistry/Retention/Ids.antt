-- ===== src/JobRegistry/Retention/Ids.antt =====
-- job_registry.rs: no two entries have one id.
use al.Prelude.{
  ◌+◌, ◌≡◌, ◌≢◌, refl, sym, ◌∙◌, true, some, List, [], ◌∷◌, arith, Bool-cases, inl, inr, ◌==◌,
  if◌then◌else◌, All, subst, length, ==_false, ℕ_discrete, ==_iff,
}
use al.JobRegistry.Types.{
  JobId, JobType, train, is_train, is_convert, is_delete_subtype, is_active, JobEntry,
}
use al.JobRegistry.State.{find_entry, set_entry, remove_entry}
use al.JobRegistry.Admission.{holds_slot, count_slot}
use al.JobRegistry.Entries.{find_entry-job_id}
use al.JobRegistry.Everywhere.{All-find, All-set, All-remove}

unfoldable pub Distinct : List JobEntry → Type 0
Distinct [] = Unit
Distinct (e ∷ es) = All (λ d. e.job_id ≢ d.job_id) es × Distinct es

pub Distinct-set :
    (id : JobId) (es : List JobEntry) (e : JobEntry)
    → e.job_id ≡ id
    → Distinct es
    → Distinct (set_entry id e es)
unfolding Distinct set_entry
Distinct-set id [] e same d = tt
Distinct-set id (x ∷ xs) e same d = elim (ℕ_discrete x.job_id id) [
  | yes here ↦
      rw ((==_iff x.job_id id).1 here)
        (subst (λ k. All (λ d. k ≢ d.job_id) xs) (here ∙ sym same) d.0, d.1)
  | no other ↦
      rw (==_false x.job_id id other)
        (All-set _ id xs e d.0 (λ q. other (q ∙ same)), Distinct-set id xs e same d.1)
]

pub Distinct-remove :
    (id : JobId) (es : List JobEntry) → Distinct es → Distinct (remove_entry id es)
unfolding Distinct remove_entry
Distinct-remove id [] d = tt
Distinct-remove id (x ∷ xs) d = elim (Bool-cases (x.job_id == id)) [
  | inl t ↦ rw t (Distinct-remove id xs d.1)
  | inr t ↦ rw t (All-remove _ id xs d.0, Distinct-remove id xs d.1)
]

pub remove_entry-absent :
    (id : JobId) (es : List JobEntry) → All (λ d. id ≢ d.job_id) (remove_entry id es)
unfolding remove_entry
remove_entry-absent id [] = tt
remove_entry-absent id (x ∷ xs) = elim (ℕ_discrete x.job_id id) [
  | yes here ↦ rw ((==_iff x.job_id id).1 here) (remove_entry-absent id xs)
  | no other ↦ rw (==_false x.job_id id other) ((λ q. other (sym q)), remove_entry-absent id xs)
]

-- With distinct ids, what holds of every entry that is found holds of every entry.
pub All-found :
    (P : JobEntry → Type 0) (es : List JobEntry)
    → Distinct es
    → ((id : JobId) (e : JobEntry) → find_entry id es ≡ some e → P e)
    → All P es
unfolding Distinct find_entry
All-found P [] d f = tt
All-found P (x ∷ xs) d f = (
  f x.job_id x (ground arith),
  All-found P xs d.1 (λ id e h.
      let same = find_entry-job_id id xs e h in
      let apart = All-find _ id xs e d.0 h in
      f id e (rw (==_false x.job_id id (λ q. apart (q ∙ sym same))) h)),
)

one_slot :
    (t : JobType)
    → (if is_train t then 1 else 0)
        + (if is_convert t then 1 else 0)
        + (if is_delete_subtype t then 1 else 0)
      ≡ 1
one_slot t =
    elim t
      as (λ t.
        (if is_train t then 1 else 0)
          + (if is_convert t then 1 else 0)
          + (if is_delete_subtype t then 1 else 0)
        ≡ 1) [ train ↦ refl | _ ↦ refl ]

-- Every active job holds one slot of the three.
pub length-slots :
    (es : List JobEntry)
    → All (λ e. is_active e.state ≡ true) es
    → length es
      ≡ count_slot is_train es + count_slot is_convert es + count_slot is_delete_subtype es
unfolding count_slot holds_slot
length-slots [] a = omega arith
length-slots (x ∷ xs) a =
    let rest = length-slots xs a.1 in
    let active = a.0 in let one = one_slot x.job_type in ground arith
