-- ===== src/StagedDelete/Tests.antt =====
-- modules/file_mgr/staging.rs, recovery.rs: a workspace of two files and a directory.
use al.Prelude.{refl, true, false, arith, [], ◌∷◌, inl, inr}
use al.Effects.{succeeds, fails_before, fails_after, crashes, World, final}
use al.Effects.Clean.{Clean}
use al.StagedDelete.{Entries, nil, leaf, dir, drain_dir}
use al.StagedDelete.Drain.{size, Pruned-refl, Batch, drain_dir-Batch}
use al.StagedDelete.Protocol.{
  missing, tree, Staging, is_missing, start_delete, delete_workspace, walk_staging,
}
use al.StagedDelete.Atomic.{Atomic, part}
use al.StagedDelete.Settles.{payload_size, Settled}
use al.StagedDelete.Recovers.{walk_staging-Settled, delete_workspace-Settled}
use al.StagedDelete.Life.{begin, luck, start, boot, Life-Atomic}

abbrev files : Entries
files = leaf 1 (dir 2 (leaf 3 nil) (leaf 4 nil))

-- A batch of two, of which the second removal fails after its effect.
drain_dir-Batch_example : Batch 2 0 files (
    drain_dir 2 files 0
      (succeeds ∷ succeeds ∷ succeeds ∷ succeeds ∷ succeeds ∷ succeeds ∷ fails_after ∷ []))
drain_dir-Batch_example =
    drain_dir-Batch 2 files 0
      (succeeds ∷ succeeds ∷ succeeds ∷ succeeds ∷ succeeds ∷ succeeds ∷ fails_after ∷ [])
      (omega arith)

abbrev world : World Staging
world = record {
  state = record { target = tree files; tombstone = false; stage_dir = false; payload = missing };
  fates = succeeds ∷ succeeds ∷ succeeds ∷ succeeds ∷ succeeds ∷ crashes ∷ [];
}

world-Atomic : Atomic (tree files) world.state
world-Atomic = record { place = inl (refl, refl); housed = λ e. refl }

-- The process dies after the rename; it recovers, and a call fails; and it recovers again.
abbrev renamed : World Staging
renamed = final (start_delete true world)

abbrev unlucky : World Staging
unlucky = record renamed { fates = succeeds ∷ succeeds ∷ succeeds ∷ succeeds ∷ fails_before ∷ [] }

Life-Atomic_example :
    Atomic (tree files) (final (walk_staging (final (walk_staging unlucky)))).state
Life-Atomic_example =
    Life-Atomic (tree files) world (final (walk_staging (final (walk_staging unlucky))))
      (boot (boot (luck (start begin true) unlucky.fates))) world-Atomic

-- Half of the workspace is left in the staging directory.
abbrev half : World Staging
half = record {
  state = record {
    target = missing;
    tombstone = true;
    stage_dir = true;
    payload = tree (dir 2 nil (leaf 4 nil));
  };
  fates = [];
}

walk_staging-Settled_example : Clean (λ _. Settled missing) (walk_staging half)
unfolding payload_size size
walk_staging-Settled_example =
    walk_staging-Settled (tree (dir 2 nil (leaf 4 nil))) half refl
      (record { place = inr (refl, part (Pruned-refl (dir 2 nil (leaf 4 nil)))); housed = λ e. cc })
      (omega arith)

delete_workspace-Settled_example :
    Clean (λ _. Settled missing) (delete_workspace 1 true (record world { fates = [] }))
unfolding payload_size size is_missing
delete_workspace-Settled_example =
    delete_workspace-Settled (tree files) 0 (record world { fates = [] }) refl refl refl
      (omega arith)
