-- ===== src/Sync/Integrity.antt =====
-- The invariant of the tables: the ids of jobs, events and runs are keys below the next value of
-- their sequence, and every foreign key names a row that is there.
pub mod Writes
pub mod Sweeps
pub mod Steps
use yclients_project.Prelude.{ℕ, ◌≡◌, Option, some, List, IsIn}
use yclients_project.Prelude.Keyed.{IsKeyed, IsTable, HasKey}
use yclients_project.Sync.Tables.{Db, SyncJob, SyncJobEvent, SyncRun}

-- The primary keys of the tables.
abbrev pub job_key : SyncJob → ℕ
job_key job = job.id

abbrev pub run_key : SyncRun → ℕ
run_key run = run.id

abbrev pub event_key : SyncJobEvent → ℕ
event_key event = event.id

-- sync_job_events.job_id
abbrev pub EventsFit : List SyncJobEvent → List SyncJob → Type 0
EventsFit events jobs =
    (event : SyncJobEvent) → IsIn event events → HasKey job_key event.job_id jobs

-- sync_jobs.run_id
abbrev pub RunsFit : List SyncJob → List SyncRun → Type 0
RunsFit jobs runs =
    (job : SyncJob) (run_id : ℕ)
    → IsIn job jobs
    → job.run_id ≡ some run_id
    → HasKey run_key run_id runs

pub record IsSound (db : Db) : Type 0 where
  pub jobs : IsTable job_key db.jobs db.next_job_id
  pub runs : IsTable run_key db.runs db.next_run_id
  pub events : IsTable event_key db.events db.next_event_id
  pub events_fit : EventsFit db.events db.jobs
  pub runs_fit : RunsFit db.jobs db.runs
