-- ===== src/HeadRotation/Commit.antt =====
-- modules/file_mgr/head_rotation.rs: from the index on, wherever it stops.
use al.Prelude.{◌%◌, ◌^◌, ◌≡◌, refl, Option, none, some, List, inr, length}
use al.HeadRotation.{
  HeadId, HeadRecord, Disk, Cache, World, no_effect, write_head_index, write_workspace_core,
  remove_mpk, remove_manifest, remove_files, publish_cache, commit,
}
use al.HeadRotation.Triples.{Holds, Holds-done, Holds-bind, attempt-Holds, best_effort-Holds}
use al.HeadRotation.Sound.{
  Absent, Good, Safe, Published, Published-Safe, Good-same, Safe-same, Published-remove_mpk,
  Published-remove_manifest,
}

-- The head whose files go is not in the new index.
unfoldable pub Displaced : Option HeadId → List HeadRecord → Type 0
Displaced none next = Unit
Displaced (some id) next = Absent id next

module _ (old next : List HeadRecord) where
  remove_files-Holds :
      (removed : Option HeadId) (w : World)
      → Displaced removed next
      → Published next w.disk w.cache
      → Holds (λ _. Published next) (Safe old next) (remove_files removed w)
  unfolding remove_files Displaced no_effect
  remove_files-Holds none w gone p = Holds-done (λ _. Published next) (Safe old next) tt w p
  remove_files-Holds (some id) w gone p =
      Holds-bind (λ _. Published next) (Safe old next) (λ _. Published next) _ _
        (best_effort-Holds (Published next) (Safe old next) (remove_mpk id) w
          (Published-Safe old next _ _ p) p (Published-remove_mpk id next _ _ gone p))
        (λ _ w p.
          Holds-bind (λ _. Published next) (Safe old next) (λ _. Published next) _ _
            (best_effort-Holds (Published next) (Safe old next) (remove_manifest id) w
              (Published-Safe old next _ _ p) p (Published-remove_manifest id next _ _ gone p))
            (λ _ w p.
              best_effort-Holds (Published next) (Safe old next) (λ d. d) w
                (Published-Safe old next _ _ p) p p))

  -- The index is written and the cache is not published yet.
  record Indexed (d : Disk) (c : Cache) : Type 0 where
    pub safe : Safe old next d c
    pub index : d.index ≡ next
    pub good : Good d next

  Indexed-write_head_index :
      (d : Disk) (c : Cache) → Safe old next d c → Good d next → Indexed (write_head_index next d) c
  unfolding write_head_index
  Indexed-write_head_index d c s g =
      let kept = Good-same d (record d { index = next }) refl refl next g in
      record {
        safe = record {
          sound = record {
            index = kept;
            cached = Good-same d (record d { index = next }) refl refl c.heads s.sound.cached;
          };
          published = inr refl;
        };
        index = refl;
        good = kept;
      }

  -- The count is written too.
  record Counted (d : Disk) (c : Cache) : Type 0 where
    pub indexed : Indexed d c
    pub count : d.head_count ≡ length next % 2 ^ 8

  Counted-write_workspace_core :
      (d : Disk) (c : Cache)
      → Indexed d c
      → Counted (write_workspace_core (length next % 2 ^ 8) d) c
  unfolding write_workspace_core
  Counted-write_workspace_core d c i = record {
    indexed = record {
      safe = Safe-same d _ refl refl old next c refl i.safe;
      index = i.index;
      good = Good-same d _ refl refl next i.good;
    };
    count = refl;
  }

  Published-publish_cache :
      (w : World)
      → Counted w.disk w.cache
      → Published next
          (publish_cache next (length next % 2 ^ 8) w).disk
          (publish_cache next (length next % 2 ^ 8) w).cache
  unfolding publish_cache
  Published-publish_cache w k = record {
    index = k.indexed.index;
    cached = refl;
    count = k.count;
    cached_count = refl;
    good = k.indexed.good;
  }

  pub commit-Holds :
      (removed : Option HeadId) (w : World)
      → Displaced removed next
      → Safe old next w.disk w.cache
      → Good w.disk next
      → Holds (λ _. Published next) (Safe old next) (commit next removed w)
  unfolding commit no_effect
  commit-Holds removed w gone s g =
      let written = Indexed-write_head_index w.disk w.cache s g in
      Holds-bind (λ _. Published next) (Safe old next) (λ _. Indexed) _ _
        (attempt-Holds Indexed (Safe old next) (write_head_index next) w s written.safe written)
        (λ _ w i.
          Holds-bind (λ _. Published next) (Safe old next) (λ _. Indexed) _ _
            (attempt-Holds Indexed (Safe old next) (λ d. d) w i.safe i.safe i)
            (λ _ w i.
              let counted = Counted-write_workspace_core w.disk w.cache i in
              Holds-bind (λ _. Published next) (Safe old next) (λ _. Counted) _ _
                (attempt-Holds Counted (Safe old next) (write_workspace_core (length next % 2 ^ 8))
                  w i.safe counted.indexed.safe counted)
                (λ _ w k.
                  remove_files-Holds removed (publish_cache next (length next % 2 ^ 8) w) gone
                    (Published-publish_cache w k))))
