-- ===== src/StagedDelete/Drain.antt =====
-- modules/file_mgr/staging.rs: what a batch of a drain removes.
use al.Prelude.{
  ℕ, ◌+◌, ◌≤◌, ◌<◌, ◌≡◌, ◌⊎◌, ◌≢◌, refl, true, arith, leb, leb→le, List, Bool-cases, inl, inr,
}
use al.Effects.{Fate, succeeds, fails_before, fails_after, crashes, next_fate, later_fates}
use al.StagedDelete.{
  Entries, nil, leaf, dir, DrainResult, finished, more, error, died, Drained, after_remove_dir,
  after_subdirectory, after_remove_file, after_read, drain_entries, drain_dir,
}

-- The entries at any depth.
unfoldable pub size : Entries → ℕ
size nil = 0
size (leaf name es) = size es + 1
size (dir name sub es) = size sub + size es + 1

-- Some of the entries, each in its place.
pub data Pruned : Entries → Entries → Type 0 where
  nothing : Pruned nil nil
  same_leaf : {l es : Entries} → (name : ℕ) → Pruned l es → Pruned (leaf name l) (leaf name es)
  no_leaf : {l es : Entries} → (name : ℕ) → Pruned l es → Pruned l (leaf name es)
  same_dir :
      {k l sub es : Entries}
      → (name : ℕ) → Pruned k sub
      → Pruned l es
      → Pruned (dir name k l) (dir name sub es)
  no_dir : {l sub es : Entries} → (name : ℕ) → Pruned l es → Pruned l (dir name sub es)

pub Pruned-refl : (es : Entries) → Pruned es es
Pruned-refl nil = nothing
Pruned-refl (leaf name es) = same_leaf name (Pruned-refl es)
Pruned-refl (dir name sub es) = same_dir name (Pruned-refl sub) (Pruned-refl es)

pub Pruned-trans : {k l m : Entries} → Pruned k l → Pruned l m → Pruned k m
Pruned-trans p nothing = p
Pruned-trans (same_leaf name p) (same_leaf _ q) = same_leaf name (Pruned-trans p q)
Pruned-trans (no_leaf name p) (same_leaf _ q) = no_leaf name (Pruned-trans p q)
Pruned-trans p (no_leaf name q) = no_leaf name (Pruned-trans p q)
Pruned-trans (same_dir name p p') (same_dir _ q q') =
    same_dir name (Pruned-trans p q) (Pruned-trans p' q')
Pruned-trans (no_dir name p) (same_dir _ q q') = no_dir name (Pruned-trans p q')
Pruned-trans p (no_dir name q) = no_dir name (Pruned-trans p q)

-- What a drain that may remove `budget - removed` entries does to a directory's.
pub record Batch (budget removed : ℕ) (es : Entries) (r : Drained) : Type 0 where
  pub within : r.removed ≤ budget
  pub counted : r.removed + size r.left ≤ removed + size es
  pub pruned : Pruned r.left es
  pub full : r.result ≡ more → (r.removed ≡ budget) × (0 < size r.left)
  pub empty : r.result ≡ finished → r.left ≡ nil

module _ (budget : ℕ) where
  -- A drain that is stopped by an error or by the death of the process.
  stopped_lem :
      (removed : ℕ) (es left : Entries) (result : DrainResult) (fates : List Fate)
      → removed ≤ budget
      → size left ≤ size es
      → Pruned left es
      → (result ≡ error) ⊎ (result ≡ died)
      → Batch budget removed es
          (record { result = result; left = left; removed = removed; fates = fates })
  stopped_lem removed es left result fates le smaller pruned why = record {
    within = le;
    counted = omega (arith, smaller);
    pruned = pruned;
    full = λ e. elim why [ inl w ↦ cc | inr w ↦ cc ];
    empty = λ e. elim why [ inl w ↦ cc | inr w ↦ cc ];
  }

  after_read-Batch :
      (removed : ℕ) (es : Entries) (fates : List Fate) (resume : List Fate → Drained)
      → removed ≤ budget
      → ((fates : List Fate) → Batch budget removed es (resume fates))
      → (f : Fate) → Batch budget removed es (after_read es removed fates resume f)
  unfolding after_read
  after_read-Batch removed es fates resume le rest succeeds = rest fates
  after_read-Batch removed es fates resume le rest fails_before =
      stopped_lem removed es es error fates le (omega arith) (Pruned-refl es) (inl refl)
  after_read-Batch removed es fates resume le rest fails_after =
      stopped_lem removed es es error fates le (omega arith) (Pruned-refl es) (inl refl)
  after_read-Batch removed es fates resume le rest crashes =
      stopped_lem removed es es died fates le (omega arith) (Pruned-refl es) (inr refl)

  -- One entry less, and then the others.
  Batch-leaf :
      (removed name : ℕ) (es : Entries) (r : Drained)
      → Batch budget (removed + 1) es r
      → Batch budget removed (leaf name es) r
  unfolding size
  Batch-leaf removed name es r b = record {
    within = b.within;
    counted = omega (arith, b.counted);
    pruned = no_leaf name b.pruned;
    full = b.full;
    empty = b.empty;
  }

  after_remove_file-Batch :
      (removed name : ℕ) (es : Entries) (fates : List Fate) (resume : ℕ → List Fate → Drained)
      → removed < budget
      → ((n : ℕ) (fates : List Fate) → n ≤ budget → Batch budget n es (resume n fates))
      → (f : Fate)
      → Batch budget removed (leaf name es) (after_remove_file name es removed fates resume f)
  unfolding after_remove_file size
  after_remove_file-Batch removed name es fates resume lt rest succeeds =
      Batch-leaf removed name es _ (rest (removed + 1) fates (omega (arith, lt)))
  after_remove_file-Batch removed name es fates resume lt rest fails_before =
      stopped_lem removed (leaf name es) (leaf name es) error fates (omega (arith, lt))
        (omega arith) (Pruned-refl _) (inl refl)
  after_remove_file-Batch removed name es fates resume lt rest fails_after =
      stopped_lem removed (leaf name es) es error fates (omega (arith, lt)) (omega arith)
        (no_leaf name (Pruned-refl es)) (inl refl)
  after_remove_file-Batch removed name es fates resume lt rest crashes =
      stopped_lem removed (leaf name es) (leaf name es) died fates (omega (arith, lt)) (omega arith)
        (Pruned-refl _) (inr refl)

  -- A directory that stays, with what is left in it.
  kept_lem :
      (removed name n : ℕ) (sub left es : Entries) (result : DrainResult) (fates : List Fate)
      → n ≤ budget
      → n + size left ≤ removed + size sub
      → Pruned left sub
      → (result ≡ more → n ≡ budget)
      → result ≢ finished
      → Batch budget removed
          (dir name sub es)
          (record { result = result; left = dir name left es; removed = n; fates = fates })
  unfolding size
  kept_lem removed name n sub left es result fates le smaller p full unfinished = record {
    within = le;
    counted = omega (arith, smaller);
    pruned = same_dir name p (Pruned-refl es);
    full = λ e. (full e, omega arith);
    empty = λ e. absurd (unfinished e);
  }

  after_remove_dir-Batch :
      (removed name n : ℕ) (sub left es : Entries) (fates : List Fate)
      (resume : ℕ → List Fate → Drained)
      → n < budget
      → n + size left ≤ removed + size sub
      → Pruned left sub
      → ((n : ℕ) (fates : List Fate) → n ≤ budget → Batch budget n es (resume n fates))
      → (f : Fate)
      → Batch budget removed (dir name sub es) (after_remove_dir name left es n fates resume f)
  unfolding after_remove_dir size
  after_remove_dir-Batch removed name n sub nil es fates resume lt le p rest succeeds =
      let b = rest (n + 1) fates (omega (arith, lt)) in
      record {
        within = b.within;
        counted = omega (arith, b.counted, le);
        pruned = no_dir name b.pruned;
        full = b.full;
        empty = b.empty;
      }
  after_remove_dir-Batch removed name n sub nil es fates resume lt le p rest fails_before =
      kept_lem removed name n sub nil es error fates (omega (arith, lt)) le p (λ e. cc) (λ e. cc)
  after_remove_dir-Batch removed name n sub nil es fates resume lt le p rest fails_after = record {
    within = omega (arith, lt);
    counted = omega (arith, le);
    pruned = no_dir name (Pruned-refl es);
    full = λ e. cc;
    empty = λ e. cc;
  }
  after_remove_dir-Batch removed name n sub nil es fates resume lt le p rest crashes =
      kept_lem removed name n sub nil es died fates (omega (arith, lt)) le p (λ e. cc) (λ e. cc)
  after_remove_dir-Batch removed name n sub (leaf m l) es fates resume lt le p rest f =
      kept_lem removed name n sub (leaf m l) es error fates (omega (arith, lt)) le p (λ e. cc)
        (λ e. cc)
  after_remove_dir-Batch removed name n sub (dir m l l') es fates resume lt le p rest f =
      kept_lem removed name n sub (dir m l l') es error fates (omega (arith, lt)) le p (λ e. cc)
        (λ e. cc)

  after_subdirectory-Batch :
      (removed name n : ℕ) (sub left es : Entries) (fates : List Fate)
      (resume : ℕ → List Fate → Drained) (result : DrainResult)
      → Batch budget removed sub
          (record { result = result; left = left; removed = n; fates = fates })
      → ((n : ℕ) (fates : List Fate) → n ≤ budget → Batch budget n es (resume n fates))
      → Batch budget removed
          (dir name sub es)
          (after_subdirectory budget name es resume n fates left result)
  unfolding after_subdirectory size
  after_subdirectory-Batch removed name n sub left es fates resume finished b rest =
      elim (Bool-cases (leb budget n)) [
        | inl reached ↦ rw reached (
            kept_lem removed name n sub left es more fates b.within b.counted b.pruned
              (λ _. omega (arith, b.within, leb→le _ _ reached)) (λ e. cc))
        | inr below ↦ rw below (
            after_remove_dir-Batch removed name n sub left es (later_fates fates) resume
              (ground arith) b.counted b.pruned rest (next_fate fates))
      ]
  after_subdirectory-Batch removed name n sub left es fates resume more b rest =
      kept_lem removed name n sub left es more fates b.within b.counted b.pruned (λ e. (b.full e).0)
        (λ e. cc)
  after_subdirectory-Batch removed name n sub left es fates resume error b rest =
      kept_lem removed name n sub left es error fates b.within b.counted b.pruned (λ e. cc)
        (λ e. cc)
  after_subdirectory-Batch removed name n sub left es fates resume died b rest =
      kept_lem removed name n sub left es died fates b.within b.counted b.pruned (λ e. cc) (λ e. cc)

  untouched :
      (removed : ℕ) (es : Entries) (fates : List Fate)
      → removed ≤ budget
      → leb budget removed ≡ true
      → 0 < size es
      → Batch budget removed es
          (record { result = more; left = es; removed = removed; fates = fates })
  untouched removed es fates le reached some_left = record {
    within = le;
    counted = omega arith;
    pruned = Pruned-refl es;
    full = λ _. (omega (arith, le, leb→le _ _ reached), some_left);
    empty = λ e. cc;
  }

  pub drain_entries-Batch :
      (es : Entries) (removed : ℕ) (fates : List Fate)
      → removed ≤ budget
      → Batch budget removed es (drain_entries budget es removed fates)
  unfolding drain_entries size
  drain_entries-Batch nil removed fates le = record {
    within = le;
    counted = omega arith;
    pruned = nothing;
    full = λ e. cc;
    empty = λ _. refl;
  }
  drain_entries-Batch (leaf name es) removed fates le = elim (Bool-cases (leb budget removed)) [
    | inl reached ↦ rw reached (untouched removed (leaf name es) fates le reached (omega arith))
    | inr below ↦ rw below (
        after_read-Batch removed (leaf name es) (later_fates fates) _ le
          (λ fates.
            after_remove_file-Batch removed name es (later_fates fates) _ (ground arith)
              (λ n fates le. drain_entries-Batch es n fates le) (next_fate fates))
          (next_fate fates))
  ]
  drain_entries-Batch (dir name sub es) removed fates le = elim (Bool-cases (leb budget removed)) [
    | inl reached ↦ rw reached (untouched removed (dir name sub es) fates le reached (omega arith))
    | inr below ↦ rw below (
        after_read-Batch removed (dir name sub es) (later_fates fates) _ le
          (λ fates.
            after_subdirectory-Batch removed name _ sub _ es _ _ _
              (after_read-Batch removed sub (later_fates fates) _ le
                (λ fates. drain_entries-Batch sub removed fates le) (next_fate fates))
              (λ n fates le. drain_entries-Batch es n fates le))
          (next_fate fates))
  ]

  -- A drain that has removed at most the budget before: it ends within the budget, no entry is there
  -- twice or new, `more` comes after a full batch and with entries left, and `finished` with none.
  -- Calls may fail and the process may die anywhere.
  pub drain_dir-Batch :
      (es : Entries) (removed : ℕ) (fates : List Fate)
      → removed ≤ budget
      → Batch budget removed es (drain_dir budget es removed fates)
  unfolding drain_dir
  drain_dir-Batch es removed fates le =
      after_read-Batch removed es (later_fates fates) _ le
        (λ fates. drain_entries-Batch es removed fates le) (next_fate fates)
