-- ===== src/HeadRotation/Delete.antt =====
-- modules/file_mgr/head_rotation.rs: deletion, with a failure or a crash anywhere.
use al.Prelude.{
  ◌≤◌, refl, sym, Bool, some, List, [], ◌∷◌, arith, Bool-cases, inl, inr, ◌==◌, length, All, any,
  ℕ_discrete, ==_iff, ==_false,
}
use al.HeadRotation.{
  HeadId, HeadRecord, Disk, World, not_found, job_conflict, asset_not_found, without, delete_head,
}
use al.HeadRotation.Triples.{Holds, Holds-failed}
use al.HeadRotation.Sound.{Absent, Distinct, Good, Sound, Safe, Published}
use al.HeadRotation.Commit.{Displaced, commit-Holds}

module _ (id : HeadId) where
  without-All : (P : HeadRecord → Type 0) (rs : List HeadRecord) → All P rs → All P (without id rs)
  unfolding without
  without-All P [] h = tt
  without-All P (r ∷ rs) h = elim (Bool-cases (r.head_id == id)) [
    | inl t ↦ rw t (without-All P rs h.1)
    | inr t ↦ rw t (h.0, without-All P rs h.1)
  ]

  without-Distinct : (rs : List HeadRecord) → Distinct rs → Distinct (without id rs)
  unfolding without Distinct Absent
  without-Distinct [] d = tt
  without-Distinct (r ∷ rs) d = elim (Bool-cases (r.head_id == id)) [
    | inl t ↦ rw t (without-Distinct rs d.1)
    | inr t ↦ rw t (without-All _ rs d.0, without-Distinct rs d.1)
  ]

  without-Absent : (rs : List HeadRecord) → Absent id (without id rs)
  unfolding without Absent
  without-Absent [] = tt
  without-Absent (r ∷ rs) = elim (ℕ_discrete r.head_id id) [
    | yes here ↦ rw ((==_iff r.head_id id).1 here) (without-Absent rs)
    | no other ↦ rw (==_false r.head_id id other) ((λ e. other (sym e)), without-Absent rs)
  ]

  length-without : (rs : List HeadRecord) → length (without id rs) ≤ length rs
  unfolding without
  length-without [] = omega arith
  length-without (r ∷ rs) = ground (arith, length-without rs)

  without-Good : (d : Disk) (rs : List HeadRecord) → Good d rs → Good d (without id rs)
  without-Good d rs g = record {
    files = without-All _ rs g.files;
    distinct = without-Distinct rs g.distinct;
    few = omega (arith, length-without rs, g.few);
  }

-- Wherever a deletion ends, by success, by an error, or by a crash between two calls: the index on
-- the disk is the old one or the cached one without the head, and every head in it has both of its
-- files; after a success it is the latter, and the cache and the count agree with it. The index and
-- the cache must be sound before.
pub delete_head-Safe :
    (exists admitted : Bool) (id : HeadId) (w : World)
    → Sound w.disk w.cache
    → Holds
        (λ _. Published (without id w.cache.heads))
        (Safe w.disk.index (without id w.cache.heads))
        (delete_head exists admitted id w)
unfolding delete_head Displaced
delete_head-Safe exists admitted id w sound =
    let start : Safe w.disk.index (without id w.cache.heads) w.disk w.cache = record {
      sound = sound;
      published = inl refl;
    } in
    elim (Bool-cases exists) [
      | inr missing ↦ rw missing (Holds-failed _ _ not_found w start)
      | inl there ↦ rw there (elim (Bool-cases admitted) [
        | inr refused ↦ rw refused (Holds-failed _ _ job_conflict w start)
        | inl granted ↦ rw granted (elim (Bool-cases (any (λ r. r.head_id == id) w.cache.heads)) [
          | inr unknown ↦ rw unknown (Holds-failed _ _ asset_not_found w start)
          | inl known ↦ rw known (
              commit-Holds w.disk.index (without id w.cache.heads) (some id) w
                (without-Absent id w.cache.heads) start
                (without-Good id w.disk w.cache.heads sound.cached))
        ])
      ])
    ]
