-- ===== src/StagedDelete/Unfailed.antt =====
-- modules/file_mgr/staging.rs: a drain in which no call fails.
use al.Prelude.{ℕ, ◌+◌, ◌≤◌, ◌≡◌, ◌⊎◌, refl, sym, subst, arith, leb, List, [], Bool-cases, inl, inr}
use al.Effects.{Fate, next_fate, later_fates}
use al.StagedDelete.{
  Entries, nil, leaf, dir, DrainResult, finished, more, error, died, Drained, after_remove_dir,
  after_subdirectory, after_remove_file, after_read, drain_entries, drain_dir,
}
use al.StagedDelete.Drain.{drain_entries-Batch}

-- No call failed, and none will.
pub record Unfailed (r : Drained) : Type 0 where
  pub fates : r.fates ≡ []
  pub goes_on : (r.result ≡ finished) ⊎ (r.result ≡ more)

module _ (budget : ℕ) where
  after_subdirectory-Unfailed :
      (name n : ℕ) (left es : Entries) (resume : ℕ → List Fate → Drained) (result : DrainResult)
      → (result ≡ finished) ⊎ (result ≡ more)
      → (result ≡ finished → left ≡ nil)
      → ((n : ℕ) → n ≤ budget → Unfailed (resume n []))
      → Unfailed (after_subdirectory budget name es resume n [] left result)
  unfolding after_subdirectory next_fate later_fates after_remove_dir
  after_subdirectory-Unfailed name n left es resume finished u empty rest =
      elim (Bool-cases (leb budget n)) [
        | inl reached ↦ rw reached (record { fates = refl; goes_on = inr refl })
        | inr below ↦ rw (below, empty refl) (rest (n + 1) (ground arith))
      ]
  after_subdirectory-Unfailed name n left es resume more u empty rest = record {
    fates = refl;
    goes_on = inr refl;
  }
  after_subdirectory-Unfailed name n left es resume error u empty rest = elim u [
    | inl e ↦ cc
    | inr e ↦ cc
  ]
  after_subdirectory-Unfailed name n left es resume died u empty rest = elim u [
    | inl e ↦ cc
    | inr e ↦ cc
  ]

  drain_entries-Unfailed :
      (es : Entries) (removed : ℕ)
      → removed ≤ budget
      → Unfailed (drain_entries budget es removed [])
  unfolding drain_entries after_read after_remove_file next_fate later_fates
  drain_entries-Unfailed nil removed le = record { fates = refl; goes_on = inl refl }
  drain_entries-Unfailed (leaf name es) removed le = elim (Bool-cases (leb budget removed)) [
    | inl reached ↦ rw reached (record { fates = refl; goes_on = inr refl })
    | inr below ↦ rw below (drain_entries-Unfailed es (removed + 1) (ground arith))
  ]
  drain_entries-Unfailed (dir name sub es) removed le = elim (Bool-cases (leb budget removed)) [
    | inl reached ↦ rw reached (record { fates = refl; goes_on = inr refl })
    | inr below ↦
        let u = drain_entries-Unfailed sub removed le in
        let b = drain_entries-Batch budget sub removed [] le in
        let r = drain_entries budget sub removed [] in
        let resume : ℕ → List Fate → Drained =
          λ removed fates. drain_entries budget es removed fates in
        rw below (
          subst
            (λ fs. Unfailed (after_subdirectory budget name es resume r.removed fs r.left r.result))
            (sym u.fates)
            (after_subdirectory-Unfailed name r.removed r.left es resume r.result u.goes_on b.empty
              (λ n le. drain_entries-Unfailed es n le)))
  ]

  -- Without failures a drain is done or has made a full batch.
  pub drain_dir-Unfailed :
      (es : Entries) (removed : ℕ) → removed ≤ budget → Unfailed (drain_dir budget es removed [])
  unfolding drain_dir after_read next_fate later_fates
  drain_dir-Unfailed es removed le = drain_entries-Unfailed es removed le
