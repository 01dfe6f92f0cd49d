-- ===== src/HeadRotation/Publish.antt =====
-- modules/file_mgr/head_rotation.rs: publication, with a failure or a crash anywhere.
use al.Prelude.{
  ◌≡◌, refl, sym, ◌∙◌, ap, subst, true, Option, none, some, List, [], ◌∷◌, arith, Bool-cases, inl,
  inr, ◌==◌, take, drop, ℕ_discrete, ==_iff, ==_false,
}
use al.HeadRotation.{
  HeadId, HeadRecord, max_heads_per_workspace, Disk, Cache, World, head_id_mismatch,
  tempfile_missing, put, no_effect, write_manifest, rename_mpk, is_some, first_id, PendingHead,
  new_record, place_files, publish_over, publish_trained_head,
}
use al.HeadRotation.Triples.{Holds, Holds-done, Holds-failed, Holds-bind, attempt-Holds}
use al.HeadRotation.Sound.{HasFiles, Absent, Distinct, Good, Sound, Safe, Published, All-weaken}
use al.HeadRotation.Commit.{Displaced, commit-Holds}

put-some :
    {A : Type 0} (files : HeadId → Option A) (id : HeadId) (content : Option A) (j : HeadId)
    → is_some content ≡ true
    → is_some (files j) ≡ true
    → is_some (put files id content j) ≡ true
unfolding put
put-some files id content j new old = elim (Bool-cases (id == j)) [
  | inl t ↦ rw t new
  | inr t ↦ rw t old
]

put_self :
    {A : Type 0} (files : HeadId → Option A) (id : HeadId) (content : Option A)
    → put files id content id ≡ content
unfolding put
put_self files id content = rw ((==_iff id id).1 refl) refl

-- New files take none away.
Good-added :
    (d d' : Disk) (heads : List HeadRecord)
    → ((j : HeadId) → is_some (d.mpks j) ≡ true → is_some (d'.mpks j) ≡ true)
    → ((j : HeadId) → is_some (d.manifests j) ≡ true → is_some (d'.manifests j) ≡ true)
    → Good d heads
    → Good d' heads
unfolding HasFiles
Good-added d d' heads mpks manifests g = record {
  files = All-weaken heads (λ r h. (mpks r.head_id h.0, manifests r.head_id h.1)) g.files;
  distinct = g.distinct;
  few = g.few;
}

-- The next index, and the head that leaves it.
next-Good :
    (d : Disk) (r : HeadRecord) (prev : List HeadRecord)
    → HasFiles d r
    → Good d prev
    → Absent r.head_id prev
    → Good d (take max_heads_per_workspace (r ∷ prev))
      × Displaced
          (first_id (drop max_heads_per_workspace (r ∷ prev)))
          (take max_heads_per_workspace (r ∷ prev))
unfolding Displaced first_id Distinct Absent
next-Good d r [] h g absent =
    (record { files = (h, tt); distinct = (tt, tt); few = omega arith }, tt)
next-Good d r (a ∷ []) h g absent =
    (record { files = (h, g.files); distinct = (absent, g.distinct); few = omega arith }, tt)
next-Good d r (a ∷ b ∷ rest) h g absent = (
  record { files = (h, (g.files.0, tt)); distinct = ((absent.0, tt), (tt, tt)); few = omega arith },
  ((λ e. absent.1.0 (sym e)), ((λ e. g.distinct.0.0 (sym e)), tt)),
)

module _ (pending : PendingHead) (old prev : List HeadRecord) where
  -- Before the index is written.
  record Staging (d : Disk) (c : Cache) : Type 0 where
    pub sound : Sound d c
    pub index : d.index ≡ old
    pub cached : c.heads ≡ prev

  record Staged (d : Disk) (c : Cache) : Type 0 where
    pub staging : Staging d c
    pub tempfile : is_some d.staged ≡ true

  record Described (d : Disk) (c : Cache) : Type 0 where
    pub staged : Staged d c
    pub manifest : is_some (d.manifests pending.head_id) ≡ true

  record Placed (d : Disk) (c : Cache) : Type 0 where
    pub staging : Staging d c
    pub manifest : is_some (d.manifests pending.head_id) ≡ true
    pub mpk : is_some (d.mpks pending.head_id) ≡ true

  Staging-added :
      (d d' : Disk) (c : Cache)
      → ((j : HeadId) → is_some (d.mpks j) ≡ true → is_some (d'.mpks j) ≡ true)
      → ((j : HeadId) → is_some (d.manifests j) ≡ true → is_some (d'.manifests j) ≡ true)
      → d'.index ≡ d.index
      → Staging d c
      → Staging d' c
  Staging-added d d' c mpks manifests index s = record {
    sound = record {
      index = subst (Good d') (sym index) (Good-added d d' d.index mpks manifests s.sound.index);
      cached = Good-added d d' c.heads mpks manifests s.sound.cached;
    };
    index = index ∙ s.index;
    cached = s.cached;
  }

  Described-write_manifest :
      (d : Disk) (c : Cache)
      → Staged d c
      → Described (write_manifest pending.head_id pending.manifest d) c
  unfolding write_manifest is_some
  Described-write_manifest d c s = record {
    staged = record {
      staging =
          Staging-added d
            (record d { manifests = put d.manifests pending.head_id (some pending.manifest) }) c
            (λ j h. h)
            (λ j h. put-some d.manifests pending.head_id (some pending.manifest) j refl h) refl
            s.staging;
      tempfile = s.tempfile;
    };
    manifest = ap is_some (put_self d.manifests pending.head_id (some pending.manifest));
  }

  Placed-rename_mpk :
      (d : Disk) (c : Cache) → Described d c → Placed (rename_mpk pending.head_id d) c
  unfolding rename_mpk
  Placed-rename_mpk d c s = record {
    staging =
        Staging-added d (record d { mpks = put d.mpks pending.head_id d.staged; staged = none }) c
          (λ j h. put-some d.mpks pending.head_id d.staged j s.staged.tempfile h) (λ j h. h) refl
          s.staged.staging;
    manifest = s.manifest;
    mpk = ap is_some (put_self d.mpks pending.head_id d.staged) ∙ s.staged.tempfile;
  }

  abbrev pub records : List HeadRecord
  records = new_record pending.manifest ∷ prev

  abbrev pub next : List HeadRecord
  next = take max_heads_per_workspace records

  abbrev pub displaced : Option HeadId
  displaced = first_id (drop max_heads_per_workspace records)

  Staging-Safe : (d : Disk) (c : Cache) → Staging d c → Safe old next d c
  Staging-Safe d c s = record { sound = s.sound; published = inl s.index }

  Placed-next :
      (d : Disk) (c : Cache)
      → pending.manifest.head_id ≡ pending.head_id
      → Absent pending.head_id prev
      → Placed d c
      → Good d next × Displaced displaced next
  unfolding new_record HasFiles
  Placed-next d c same absent s =
      next-Good d (new_record pending.manifest) prev
        (
          ap (λ j. is_some (d.mpks j)) same ∙ s.mpk,
          ap (λ j. is_some (d.manifests j)) same ∙ s.manifest,
        )
        (subst (Good d) s.staging.cached s.staging.sound.cached)
        (subst (λ j. Absent j prev) (sym same) absent)

  -- What a publication that is done has done.
  abbrev pub Done : Option HeadId → Disk → Cache → Type 0
  Done result d c = Published next d c × (result ≡ displaced)

  place_files-Holds :
      (w : World)
      → Staged w.disk w.cache
      → Holds (λ _. Placed) (Safe old next) (place_files pending w)
  unfolding place_files no_effect
  place_files-Holds w s =
      let start = Staging-Safe w.disk w.cache s.staging in
      Holds-bind (λ _. Placed) (Safe old next) (λ _. Staged) _ _
        (attempt-Holds Staged (Safe old next) (λ d. d) w start start s)
        (λ _ w s.
          let described = Described-write_manifest w.disk w.cache s in
          Holds-bind (λ _. Placed) (Safe old next) (λ _. Described) _ _
            (attempt-Holds Described (Safe old next)
              (write_manifest pending.head_id pending.manifest) w (Staging-Safe _ _ s.staging)
              (Staging-Safe _ _ described.staged.staging) described)
            (λ _ w s.
              let placed = Placed-rename_mpk w.disk w.cache s in
              Holds-bind (λ _. Placed) (Safe old next) (λ _. Placed) _ _
                (attempt-Holds Placed (Safe old next) (rename_mpk pending.head_id) w
                  (Staging-Safe _ _ s.staged.staging) (Staging-Safe _ _ placed.staging) placed)
                (λ _ w s.
                  attempt-Holds Placed (Safe old next) (λ d. d) w (Staging-Safe _ _ s.staging)
                    (Staging-Safe _ _ s.staging) s)))

  publish_over-Holds :
      (w : World)
      → pending.manifest.head_id ≡ pending.head_id
      → Absent pending.head_id prev
      → Placed w.disk w.cache
      → Holds Done (Safe old next) (publish_over pending prev w)
  unfolding publish_over
  publish_over-Holds w same absent s =
      let (good, gone) = Placed-next w.disk w.cache same absent s in
      Holds-bind Done (Safe old next) (λ _. Published next) _ _
        (commit-Holds old next displaced w gone (Staging-Safe _ _ s.staging) good)
        (λ _ w p. Holds-done Done (Safe old next) displaced w (p, refl))

-- Wherever a publication of a head with a new id ends, by success, by a failure of any file system
-- call, before or after its effect, or by a crash between two of them: the index on the disk is the
-- old one or the new head in front of the cached ones, cut to two; every head in it has both of its
-- files; and if the publication succeeded, it is the new index, the cache and the count agree with
-- it, and the head that is returned is the one that left. The index and the cache must be sound
-- before.
pub publish_trained_head-Safe :
    (pending : PendingHead) (w : World)
    → Sound w.disk w.cache
    → Absent pending.head_id w.cache.heads
    → Holds
        (Done pending w.disk.index w.cache.heads)
        (Safe w.disk.index (next pending w.disk.index w.cache.heads))
        (publish_trained_head pending w)
unfolding publish_trained_head
publish_trained_head-Safe pending w sound absent =
    let start : Safe w.disk.index (next pending w.disk.index w.cache.heads) w.disk w.cache =
      record { sound = sound; published = inl refl } in
    elim (ℕ_discrete pending.manifest.head_id pending.head_id) [
      | no other ↦
          rw (==_false pending.manifest.head_id pending.head_id other)
            (Holds-failed _ _ head_id_mismatch w start)
      | yes same ↦
          rw ((==_iff pending.manifest.head_id pending.head_id).1 same)
            (elim (Bool-cases (is_some w.disk.staged)) [
              | inr missing ↦ rw missing (Holds-failed _ _ tempfile_missing w start)
              | inl there ↦ rw there (
                  Holds-bind _ _ (λ _. Placed pending w.disk.index w.cache.heads) _ _
                    (place_files-Holds pending w.disk.index w.cache.heads w (record {
                      staging = record { sound = sound; index = refl; cached = refl };
                      tempfile = there;
                    }))
                    (λ _ w' s.
                      subst
                        (λ h.
                          Holds (Done pending w.disk.index w.cache.heads)
                            (Safe w.disk.index (next pending w.disk.index w.cache.heads))
                            (publish_over pending h w'))
                        (sym s.staging.cached)
                        (publish_over-Holds pending w.disk.index w.cache.heads w' same absent s)))
            ])
    ]
