-- ===== src/Sync/Progress.antt =====
-- sync_jobs.py: the progress of a job and its event log, and what the status endpoint reports.
use yclients_project.Prelude.{
  ℕ, ◌+◌, Bool, Option, none, some, List, [], ◌∷◌, ◌++◌, leb, ◌==◌, length, take, min,
}
use mathlib.Core.List.{reverse}
use yclients_project.Prelude.Rows.{select, order_by}
use yclients_project.Prelude.Text.{Text}
use yclients_project.Sync.Tables.{Db, SyncJob, SyncJobEvent, StepResult, is_queued, is_running}
use yclients_project.Sync.Jobs.{write_job, scoped_query, get_active_job, get_latest_job, steps_or}

-- A Python integer; `negsuc n` is -(n + 1).
pub data ℤ : Type 0 where
  pos : ℕ → ℤ
  negsuc : ℕ → ℤ

-- `max(0, min(100, int(progress_pct)))`
abbrev pub clamp_pct : ℤ → ℕ
clamp_pct (pos n) = min 100 n
clamp_pct (negsuc n) = 0

-- One call of the progress callback: the fields of the event that is recorded.
pub record EventInput : Type 0 where
  pub portal_account_id : Option ℕ
  pub credential_id : Option ℕ
  pub company_id : Option ℕ
  pub stage_key : Option Text
  pub status : Text
  pub elapsed_seconds : Option ℕ
  pub message : Option Text
  pub payload : Text

unfoldable pub record_event : ℕ → Option ℕ → EventInput → Db → Db
record_event clock none e db = db
record_event clock (some job_id) e db = record db {
  events =
      db.events
      ++ record {
        id = db.next_event_id;
        job_id = job_id;
        portal_account_id = e.portal_account_id;
        credential_id = e.credential_id;
        company_id = e.company_id;
        stage_key = e.stage_key;
        status = e.status;
        elapsed_seconds = e.elapsed_seconds;
        message = e.message;
        payload = e.payload;
        created_at = clock;
      }
        ∷ [];
  next_event_id = db.next_event_id + 1;
}

abbrev pub pct_or : Option ℤ → ℕ → ℕ
pct_or none old = old
pct_or (some pct) old = clamp_pct pct

abbrev pub stage_or : Option Text → Text → Text
stage_or none old = old
stage_or (some stage) old = stage

abbrev pub progressed : Option ℤ → Option Text → Option (List StepResult) → SyncJob → SyncJob
progressed pct stage steps job = record job {
  progress_pct = pct_or pct job.progress_pct;
  current_stage = stage_or stage job.current_stage;
  step_results = steps_or steps job.step_results;
}

-- A job id with no row is left alone.
unfoldable pub update_progress :
    Option ℕ → Option ℤ → Option Text → Option (List StepResult) → Db → Db
update_progress none pct stage steps db = db
update_progress (some id) pct stage steps db = write_job id (progressed pct stage steps) db

abbrev pub event_newer : SyncJobEvent → SyncJobEvent → Bool
event_newer a b = leb b.id a.id

pub record QueueStatus : Type 0 where
  pub queued_jobs : ℕ
  pub running_jobs : ℕ
  pub current_job : Option SyncJob
  pub last_job : Option SyncJob
  pub events : List SyncJobEvent

-- `current.id if current else (latest.id if latest else None)`
abbrev pub event_job_id : Option SyncJob → Option SyncJob → Option ℕ
event_job_id (some current) latest = some current.id
event_job_id none (some latest) = some latest.id
event_job_id none none = none

unfoldable pub last_events : Option ℕ → List SyncJobEvent → List SyncJobEvent
last_events none events = []
last_events (some id) events =
    reverse (take 10 (order_by event_newer (select (λ event. event.job_id == id) events)))

unfoldable pub get_status_payload : Option ℕ → Db → QueueStatus
unfolding last_events
get_status_payload account db =
    let current = get_active_job account db in
    let latest = get_latest_job account db in
    record {
      queued_jobs = length (select (λ job. is_queued job.status) (scoped_query account db.jobs));
      running_jobs = length (select (λ job. is_running job.status) (scoped_query account db.jobs));
      current_job = current;
      last_job = latest;
      events = last_events (event_job_id current latest) db.events;
    }
