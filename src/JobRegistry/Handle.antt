-- ===== src/JobRegistry/Handle.antt =====
-- job_registry.rs: the handle of an admitted job. A method that consumes the handle ends with its
-- `Drop`.
use al.Prelude.{ℕ, Bool, true, Option, none, List, if◌then◌else◌}
use al.JobRegistry.Types.{JobId, succeeded, failed, cancelled, JobResult, JobProgress}
use al.JobRegistry.State.{Registry}
use al.JobRegistry.Events

pub record JobHandle : Type 0 where
  pub job_id : JobId
  pub terminated : Bool

unfoldable pub update_progress : Registry → JobHandle → JobProgress → ℕ → ℕ → Registry
update_progress r h progress now at = Events.update_progress r h.job_id progress now at

unfoldable pub append_log : Registry → JobHandle → List ℕ → ℕ → Registry
append_log r h message at = Events.append_log r h.job_id message at

-- `JobHandle::drop`
unfoldable pub drop_handle : Registry → JobHandle → ℕ → Registry
drop_handle r h at = if h.terminated then r else Events.terminate r h.job_id failed none at

unfoldable pub succeed : Registry → JobHandle → Option JobResult → ℕ → Registry
unfolding drop_handle
succeed r h result at =
    drop_handle (Events.terminate r h.job_id succeeded result at) (record h { terminated = true })
      at

unfoldable pub fail : Registry → JobHandle → List ℕ → ℕ → Registry
unfolding drop_handle
fail r h reason at =
    drop_handle (Events.terminate (Events.append_log r h.job_id reason at) h.job_id failed none at)
      (record h { terminated = true }) at

unfoldable pub cancel : Registry → JobHandle → ℕ → Registry
unfolding drop_handle
cancel r h at =
    drop_handle (Events.terminate r h.job_id cancelled none at) (record h { terminated = true }) at
