-- ===== src/HeadRotation/Succeeds.antt =====
-- modules/file_mgr/head_rotation.rs: without failures a publication succeeds.
use al.Prelude.{◌≡◌, refl, ◌==◌, arith, true, Option, none, some, List, []}
use al.HeadRotation.{
  HeadId, HeadRecord, Disk, World, Run, done, bind, attempt, attempt_with, best_effort,
  best_effort_with, PendingHead, is_some, remove_files, publish_cache, commit, place_files,
  publish_over, publish_trained_head,
}
use al.HeadRotation.Triples.{done-Holds}
use al.HeadRotation.Sound.{Sound, Absent}
use al.HeadRotation.Publish.{Done, publish_trained_head-Safe}

-- The run ends, and no failure is left to come.
Clean : {A : Type 0} → Run A → Type 0
Clean {A = A} r = (a : A) × (w : World) × (r ≡ done a w) × (w.fates ≡ [])

Clean-bind :
    {A B : Type 0} (r : Run A) (k : A → World → Run B)
    → Clean r
    → ((a : A) (w : World) → w.fates ≡ [] → Clean (k a w))
    → Clean (bind r k)
unfolding Clean bind
Clean-bind r k (a, w, ends, none_left) rest =
    let (b, v, ends', left) = rest a w none_left in (b, v, rw (ends, bind) ends', left)

Clean-attempt : (effect : Disk → Disk) (w : World) → w.fates ≡ [] → Clean (attempt effect w)
unfolding Clean attempt attempt_with
Clean-attempt effect w h = rw (h, attempt_with) (tt, _, refl, h)

Clean-best_effort : (effect : Disk → Disk) (w : World) → w.fates ≡ [] → Clean (best_effort effect w)
unfolding Clean best_effort best_effort_with
Clean-best_effort effect w h = rw (h, best_effort_with) (tt, _, refl, h)

Clean-done : {A : Type 0} (a : A) (w : World) → w.fates ≡ [] → Clean (done a w)
unfolding Clean
Clean-done a w h = (a, w, refl, h)

Clean-remove_files :
    (removed : Option HeadId) (w : World) → w.fates ≡ [] → Clean (remove_files removed w)
unfolding remove_files
Clean-remove_files none w h = Clean-done tt w h
Clean-remove_files (some id) w h =
    Clean-bind _ _ (Clean-best_effort _ w h)
      (λ _ w h. Clean-bind _ _ (Clean-best_effort _ w h) (λ _ w h. Clean-best_effort _ w h))

Clean-commit :
    (records : List HeadRecord) (removed : Option HeadId) (w : World)
    → w.fates ≡ []
    → Clean (commit records removed w)
unfolding commit publish_cache
Clean-commit records removed w h = Clean-bind _ _ (Clean-attempt _ w h) (λ _ w h.
    Clean-bind _ _ (Clean-attempt _ w h)
      (λ _ w h. Clean-bind _ _ (Clean-attempt _ w h) (λ _ w h. Clean-remove_files removed _ h)))

Clean-place_files :
    (pending : PendingHead) (w : World) → w.fates ≡ [] → Clean (place_files pending w)
unfolding place_files
Clean-place_files pending w h = Clean-bind _ _ (Clean-attempt _ w h) (λ _ w h.
    Clean-bind _ _ (Clean-attempt _ w h)
      (λ _ w h. Clean-bind _ _ (Clean-attempt _ w h) (λ _ w h. Clean-attempt _ w h)))

Clean-publish_trained_head :
    (pending : PendingHead) (w : World)
    → w.fates ≡ []
    → pending.manifest.head_id ≡ pending.head_id
    → is_some w.disk.staged ≡ true
    → Clean (publish_trained_head pending w)
unfolding publish_trained_head publish_over
Clean-publish_trained_head pending w h same staged =
    let checked : (pending.manifest.head_id == pending.head_id) ≡ true = ground arith in
    rw (checked, staged)
      (Clean-bind _ _ (Clean-place_files pending w h)
        (λ _ w h. Clean-bind _ _ (Clean-commit _ _ w h) (λ _ w h. Clean-done _ w h)))

-- When no call fails, a publication of a head with a new id succeeds, if the manifest has the id of
-- the head and the artifact is staged: the index on the disk and the cache are the new head in front
-- of the cached ones, cut to two, the count agrees, and the head that left is returned. The index
-- and the cache must be sound before.
pub publish_trained_head-succeeds :
    (pending : PendingHead) (w : World)
    → w.fates ≡ []
    → Sound w.disk w.cache
    → Absent pending.head_id w.cache.heads
    → pending.manifest.head_id ≡ pending.head_id
    → is_some w.disk.staged ≡ true
    → (displaced : Option HeadId) × (v : World) × (publish_trained_head pending w
        ≡ done displaced v)
      × Done pending w.disk.index w.cache.heads displaced v.disk v.cache
unfolding Clean
publish_trained_head-succeeds pending w lucky sound absent same staged =
    let (displaced, v, ends, left) = Clean-publish_trained_head pending w lucky same staged in
    let safe = publish_trained_head-Safe pending w sound absent in
    (displaced, v, ends, done-Holds _ _ displaced v (rw ends at safe))
