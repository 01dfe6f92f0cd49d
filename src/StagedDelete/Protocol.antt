-- ===== src/StagedDelete/Protocol.antt =====
-- modules/file_mgr/staging.rs, recovery.rs and registry.rs: the steps of a delete, and its recovery at
-- boot.
use al.Prelude.{ℕ, zero, suc, Bool, true, false, not, if◌then◌else◌}
use al.Effects.{World, Run, done, failed, crashed, bind, rescue, attempt, best_effort, no_effect}
use al.StagedDelete.{
  default_delete_batch_entries, Entries, nil, leaf, dir, DrainResult, finished, more, error, died,
  Drained, drain_dir,
}

-- What stands at a path: nothing, a file or a symlink, or a directory.
pub data Payload : Type 0 where
  missing single : Payload
  tree : Entries → Payload

-- The target of one delete, and the files of its job in the staging directory.
pub record Staging : Type 0 where
  pub target : Payload
  pub tombstone : Bool
  pub stage_dir : Bool
  pub payload : Payload

pub data FileError : Type 0 where
  io not_found : FileError

unfoldable pub is_missing : Payload → Bool
is_missing missing = true
is_missing single = false
is_missing (tree es) = false

unfoldable pub put_tombstone : Bool → Staging → Staging
put_tombstone b s = record s { tombstone = b }

unfoldable pub put_stage_dir : Bool → Staging → Staging
put_stage_dir b s = record s { stage_dir = b }

unfoldable pub put_payload : Payload → Staging → Staging
put_payload p s = record s { payload = p }

-- The rename of the target.
unfoldable pub rename_target : Staging → Staging
rename_target s = record s { target = missing; payload = s.target }

unfoldable pub write_tombstone : World Staging → Run Staging FileError Unit
write_tombstone w = bind (attempt io no_effect w) (λ _ w. attempt io (put_tombstone true) w)

unfoldable pub stage_payload : World Staging → Run Staging FileError Unit
stage_payload w = bind (attempt io (put_stage_dir true) w) (λ _ w.
    bind (attempt io no_effect w) (λ _ w.
      if is_missing w.state.target
      then failed io w
      else bind (attempt io rename_target w)
          (λ _ w. bind (attempt io no_effect w) (λ _ w. attempt io no_effect w))))

-- `start_delete_workspace_inner_with_id`; `exists` is whether the workspace has a core file.
unfoldable pub start_delete : Bool → World Staging → Run Staging FileError Unit
start_delete exists w =
    if not exists then failed not_found w else bind (write_tombstone w) (λ _ w. stage_payload w)

-- A drain of a directory, with what it leaves on the disk; the directory itself stays. The result
-- is whether it is done.
unfoldable pub drained : Staging → Drained → DrainResult → Run Staging FileError Bool
drained s r finished = done true (record { state = put_payload (tree r.left) s; fates = r.fates })
drained s r more = done false (record { state = put_payload (tree r.left) s; fates = r.fates })
drained s r error = failed io (record { state = put_payload (tree r.left) s; fates = r.fates })
drained s r died = crashed (record { state = put_payload (tree r.left) s; fates = r.fates })

unfoldable pub drain_payload : ℕ → Payload → World Staging → Run Staging FileError Bool
drain_payload budget missing w = done true w
drain_payload budget single w = bind (attempt io (put_payload missing) w) (λ _ w. done true w)
drain_payload budget (tree es) w =
    let r = drain_dir budget es 0 w.fates in drained w.state r r.result

unfoldable pub drain_staged_payload : ℕ → World Staging → Run Staging FileError Bool
drain_staged_payload budget w =
    bind (attempt io no_effect w) (λ _ w. drain_payload budget w.state.payload w)

-- The loop of at most so many batches; the result is whether the drain got done.
unfoldable pub drain_loop : ℕ → World Staging → Run Staging FileError Bool
drain_loop zero w = done false w
drain_loop (suc iters) w =
    bind (drain_staged_payload default_delete_batch_entries w)
      (λ drain_done w. elim drain_done [ true ↦ done true w | false ↦ drain_loop iters w ])

-- `remove_dir` is refused for a directory with entries.
unfoldable pub remove_payload : Payload → World Staging → Run Staging FileError Unit
remove_payload missing w = done tt w
remove_payload single w = attempt io (put_payload missing) w
remove_payload (tree nil) w = attempt io (put_payload missing) w
remove_payload (tree (leaf name es)) w = failed io w
remove_payload (tree (dir name sub es)) w = failed io w

unfoldable pub remove_stage_dir : World Staging → Run Staging FileError Unit
remove_stage_dir w =
    if not w.state.stage_dir
    then done tt w
    else if is_missing w.state.payload
    then attempt io (put_stage_dir false) w
    else failed io w

unfoldable pub remove_tombstone : World Staging → Run Staging FileError Unit
remove_tombstone w = if w.state.tombstone then attempt io (put_tombstone false) w else done tt w

unfoldable pub finalize_staged_delete : World Staging → Run Staging FileError Unit
finalize_staged_delete w = bind (attempt io no_effect w) (λ _ w.
    bind (remove_payload w.state.payload w) (λ _ w.
      bind (remove_stage_dir w) (λ _ w. bind (remove_tombstone w) (λ _ w. attempt io no_effect w))))

-- The worker of a delete, and the delete of a caller that waits, with a cap on the batches.
unfoldable pub drain_to_completion : ℕ → World Staging → Run Staging FileError Unit
drain_to_completion iters w = bind (drain_loop iters w) (λ _ w. finalize_staged_delete w)

unfoldable pub delete_workspace : ℕ → Bool → World Staging → Run Staging FileError Unit
delete_workspace iters exists w = bind (start_delete exists w) (λ _ w. drain_to_completion iters w)

unfoldable pub max_iters : ℕ
max_iters = 1_000_000

-- Whether a tombstone was completed; its failure is only logged.
unfoldable pub complete : World Staging → Run Staging FileError Bool
complete w =
    rescue
      (bind (drain_loop max_iters w) (λ drain_ok w.
        if drain_ok then bind (finalize_staged_delete w) (λ _ w. done true w) else done false w))
      (λ _ w. done false w)

-- The sweep of a stage directory without a tombstone; whether there was one.
unfoldable pub sweep_orphan : World Staging → Run Staging FileError Bool
sweep_orphan w =
    if w.state.stage_dir
    then rescue
        (bind (attempt io (λ s. put_payload missing (put_stage_dir false s)) w)
          (λ _ w. done true w))
        (λ _ w. done false w)
    else done false w

-- `walk_staging` for the files of one job. A tombstone that cannot be read is removed, and then its
-- stage directory is an orphan.
unfoldable pub walk_staging : World Staging → Run Staging FileError Bool
walk_staging w = bind (attempt io no_effect w) (λ _ w.
    bind
      (if w.state.tombstone
        then bind
            (rescue (bind (attempt io no_effect w) (λ _ w. done true w)) (λ _ w. done false w))
            (λ readable w.
              if readable
              then complete w
              else bind (best_effort io (put_tombstone false) w) (λ _ w. sweep_orphan w))
        else sweep_orphan w)
      (λ changed w.
        if changed then bind (best_effort io no_effect w) (λ _ w. done true w) else done false w))
