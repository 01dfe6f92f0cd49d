-- ===== src/JobRegistry/Types.antt =====
-- job_registry.rs, common/workspace.rs: the data of the job registry.
-- An id is the number of its UUID; a wall-clock stamp and an `Instant` are numbers too.
use al.Prelude.{ℕ, ◌*◌, Bool, true, false, Option, List}

abbrev pub JobId : Type 0
JobId = ℕ

abbrev pub WorkspaceId : Type 0
WorkspaceId = ℕ

abbrev pub HeadId : Type 0
HeadId = ℕ

-- A validated asset path is its bytes.
abbrev pub TargetPath : Type 0
TargetPath = List ℕ

pub data JobType : Type 0 where
  train : JobType
  convert : JobType
  dataset_delete : JobType
  converter_delete : JobType
  training_logs_delete : JobType
  converter_logs_delete : JobType
  workspace_delete : JobType

abbrev pub is_train : JobType → Bool
is_train JobType.train = true
is_train _ = false

abbrev pub is_convert : JobType → Bool
is_convert JobType.convert = true
is_convert _ = false

-- `JobType::is_delete_subtype`
abbrev pub is_delete_subtype : JobType → Bool
is_delete_subtype JobType.train = false
is_delete_subtype JobType.convert = false
is_delete_subtype _ = true

abbrev pub is_workspace_delete : JobType → Bool
is_workspace_delete JobType.workspace_delete = true
is_workspace_delete _ = false

pub data JobReference : Type 0 where
  workspace : WorkspaceId → JobReference

abbrev pub workspace_id : JobReference → WorkspaceId
workspace_id (workspace w) = w

pub data JobState : Type 0 where
  queued running succeeded failed cancelled : JobState

-- `JobState::is_active`
abbrev pub is_active : JobState → Bool
is_active queued = true
is_active running = true
is_active _ = false

pub data JobResult : Type 0 where
  workspace_deleted : Bool → JobResult
  converted : HeadId → List ℕ → ℕ → JobResult
  trained : HeadId → List ℕ → ℕ → JobResult

pub record JobProgress : Type 0 where
  pub finished : ℕ
  pub total : Option ℕ

pub record JobEvent : Type 0 where
  pub seq : ℕ
  pub at : ℕ
  pub state : Option JobState
  pub progress : Option JobProgress
  pub message : Option (List ℕ)

pub record JobEntry : Type 0 where
  pub job_id : JobId
  pub job_type : JobType
  pub references : List JobReference
  pub target_path : Option TargetPath
  pub state : JobState
  pub progress : Option JobProgress
  pub result : Option JobResult
  pub last_seq : ℕ
  pub updated_at : ℕ
  pub ring : List JobEvent
  pub last_progress_at : Option ℕ

pub record JobSnapshot : Type 0 where
  pub job_id : JobId
  pub job_type : JobType
  pub workspace_id : Option WorkspaceId
  pub target_path : Option TargetPath
  pub state : JobState
  pub progress : Option JobProgress
  pub result : Option JobResult
  pub last_seq : ℕ
  pub updated_at : ℕ

pub record EventGap : Type 0 where
  pub oldest_seq : ℕ
  pub latest_seq : ℕ

pub data RegistryConflict : Type 0 where
  another_train_running : RegistryConflict
  job_conflict : JobId → JobType → RegistryConflict

-- `progress_throttle` is the window `1 / max(progress_throttle_hz, 0.001)` as a duration; the
-- division of floats is not modelled.
pub record JobRegistryCfg : Type 0 where
  pub max_train_jobs : ℕ
  pub max_convert_jobs : ℕ
  pub max_delete_jobs : ℕ
  pub max_recent_jobs : ℕ
  pub max_job_event_ring : ℕ
  pub max_log_line_bytes : ℕ
  pub progress_throttle : ℕ

-- `JobRegistryCfg::default`, in milliseconds: 4 Hz.
abbrev pub default_cfg : JobRegistryCfg
default_cfg = record {
  max_train_jobs = 1;
  max_convert_jobs = 1;
  max_delete_jobs = 1;
  max_recent_jobs = 4;
  max_job_event_ring = 1024;
  max_log_line_bytes = 8 * 1024;
  progress_throttle = 250;
}
