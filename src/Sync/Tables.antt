-- ===== src/Sync/Tables.antt =====
-- The tables of models.py that the synchronisation code reads and writes. A moment is a count of
-- microseconds on the naive UTC time line that every DateTime column uses.
use yclients_project.Prelude.{ℕ, Bool, true, false, Option, List, ◌*◌, ◌+◌, ltb}
use yclients_project.Prelude.Text.{Text, codes}

-- The texts that the code stores in `sync_jobs.status`.
pub data JobStatus : Type 0 where
  queued running success failed : JobStatus
  other : Text → JobStatus

abbrev pub status_text : JobStatus → Text
status_text queued = codes "queued"
status_text running = codes "running"
status_text success = codes "success"
status_text failed = codes "failed"
status_text (other s) = s

abbrev pub is_queued : JobStatus → Bool
is_queued queued = true
is_queued _ = false

abbrev pub is_running : JobStatus → Bool
is_running running = true
is_running _ = false

abbrev pub is_success : JobStatus → Bool
is_success success = true
is_success _ = false

-- What the code reads of one entry of a step_results list.
pub record StepResult : Type 0 where
  pub key : Text
  pub success : Bool

pub record SyncJob : Type 0 where
  pub id : ℕ
  pub mode : Text
  pub initiator : Text
  pub status : JobStatus
  pub portal_account_id : Option ℕ
  pub credential_id : Option ℕ
  pub company_ids : List ℕ
  pub progress_pct : ℕ
  pub current_stage : Text
  pub step_results : List StepResult
  pub requested_at : ℕ
  pub started_at : Option ℕ
  pub finished_at : Option ℕ
  pub run_id : Option ℕ
  pub error_message : Option Text

-- `elapsed_seconds` and `payload` are stored and never examined.
pub record SyncJobEvent : Type 0 where
  pub id : ℕ
  pub job_id : ℕ
  pub portal_account_id : Option ℕ
  pub credential_id : Option ℕ
  pub company_id : Option ℕ
  pub stage_key : Option Text
  pub status : Text
  pub elapsed_seconds : Option ℕ
  pub message : Option Text
  pub payload : Text
  pub created_at : ℕ

pub data RunStatus : Type 0 where
  running success failed abandoned : RunStatus

abbrev pub run_is_running : RunStatus → Bool
run_is_running RunStatus.running = true
run_is_running _ = false

abbrev pub run_is_success : RunStatus → Bool
run_is_success RunStatus.success = true
run_is_success _ = false

pub record SyncRun : Type 0 where
  pub id : ℕ
  pub trigger_type : Text
  pub mode : Text
  pub status : RunStatus
  pub initiator : Text
  pub started_at : ℕ
  pub finished_at : Option ℕ
  pub log_path : Text
  pub message : Option Text

pub record SyncState : Type 0 where
  pub key : Text
  pub value : Option Text
  pub updated_at : ℕ

-- The columns of `yclients_credentials` that the worker reads.
pub record Credential : Type 0 where
  pub portal_account_id : Option ℕ
  pub is_active : Bool

-- The committed database, with the next value of each id sequence. `usage_events` holds the
-- `created_at` of each row of report_usage_events.
pub record Db : Type 0 where
  pub jobs : List SyncJob
  pub events : List SyncJobEvent
  pub runs : List SyncRun
  pub states : List SyncState
  pub credentials : List Credential
  pub usage_events : List ℕ
  pub next_job_id : ℕ
  pub next_event_id : ℕ
  pub next_run_id : ℕ

abbrev pub minutes : ℕ → ℕ
minutes n = n * 60000000

abbrev pub hours : ℕ → ℕ
hours n = n * 3600000000

abbrev pub days : ℕ → ℕ
days n = n * 86400000000

-- `t < now - span` on the time line, with no subtraction that could stop at 0.
abbrev pub is_older : ℕ → ℕ → ℕ → Bool
is_older t span now = ltb (t + span) now
