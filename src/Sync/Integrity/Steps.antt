-- ===== src/Sync/Integrity/Steps.antt =====
-- sync_jobs.py and sync_control.py: the operations in any order, as a step relation, and the
-- invariant of the tables along it.
use yclients_project.Prelude.{ℕ, ◌≡◌, Bool, Option, some, List, []}
use yclients_project.Prelude.Keyed.{HasKey}
use yclients_project.Prelude.Text.{Text}
use yclients_project.Sync.Tables.{Db, RunStatus, StepResult}
use yclients_project.Sync.Parsing.{DateTimeText}
use yclients_project.Sync.Control.{cleanup_stale_runs, create_run, finish_run, purge_old_runs}
use yclients_project.Sync.Jobs.{
  enqueue_job, claim_next_job, release_job_to_queue, Result, finish_job, reap_stale_jobs,
  purge_old_jobs,
}
use yclients_project.Sync.Progress.{ℤ, EventInput, record_event, update_progress}
use yclients_project.Sync.Integrity.{job_key, run_key, IsSound}
use yclients_project.Sync.Integrity.Writes.{
  enqueue_job-IsSound, claim_next_job-IsSound, release_job_to_queue-IsSound, finish_job-IsSound,
  reap_stale_jobs-IsSound, update_progress-IsSound, record_event-IsSound,
  cleanup_stale_runs-IsSound, create_run-IsSound, finish_run-IsSound,
}
use yclients_project.Sync.Integrity.Sweeps.{purge_old_jobs-IsSound, purge_old_runs-IsSound}

-- One call of an operation. A result names a run that is there, and an event a job that is there:
-- PostgreSQL refuses any other row.
pub data Step (py : DateTimeText) (db : Db) : Db → Type 0 where
  enqueue :
      (clock : ℕ) (mode : Option Text) (initiator : Text) (account credential : Option ℕ)
      (companies : Option (List ℕ))
      → Step py db (enqueue_job clock mode initiator account credential companies db).0
  claim : (clock : ℕ) → Step py db (claim_next_job clock db).0
  release : (id : ℕ) → Step py db (release_job_to_queue id db)
  finish :
      (clock id : ℕ) (result : Result)
      → ((r : ℕ) → result.run_id ≡ some r → HasKey run_key r db.runs)
      → Step py db (finish_job clock id result db)
  reap :
      (minutes : ℕ) (now : Option ℕ) (clock : ℕ)
      → Step py db (reap_stale_jobs minutes now clock db).0
  purge_jobs :
      (retention_days : ℕ) (now : Option ℕ) (clock : ℕ)
      → Step py db (purge_old_jobs retention_days now clock db).0
  log :
      (clock : ℕ) (id : Option ℕ) (event : EventInput)
      → ((job_id : ℕ) → id ≡ some job_id → HasKey job_key job_id db.jobs)
      → Step py db (record_event clock id event db)
  progress :
      (id : Option ℕ) (pct : Option ℤ) (stage : Option Text) (steps : Option (List StepResult))
      → Step py db (update_progress id pct stage steps db)
  cleanup : (clock : ℕ) → Step py db (cleanup_stale_runs clock db).0
  create :
      (clock : ℕ) (mode trigger initiator path : Text)
      → Step py db (create_run clock mode trigger initiator path db).0
  close :
      (clock id : ℕ) (status : RunStatus) (message : Text) (scoped : Bool)
      → Step py db (finish_run py clock id status message scoped db)
  purge_runs :
      (retention_days : ℕ) (now : Option ℕ) (clock : ℕ)
      → Step py db (purge_old_runs retention_days now clock db).0

pub data Reach (py : DateTimeText) (db : Db) : Db → Type 0 where
  here : Reach py db db
  next : {mid after : Db} → Reach py db mid → Step py mid after → Reach py db after

Step-IsSound :
    (py : DateTimeText) (db : Db) {after : Db} → Step py db after → IsSound db → IsSound after
Step-IsSound py db (enqueue clock mode initiator account credential companies) h =
    enqueue_job-IsSound clock mode initiator account credential companies db h
Step-IsSound py db (claim clock) h = claim_next_job-IsSound clock db h
Step-IsSound py db (release id) h = release_job_to_queue-IsSound id db h
Step-IsSound py db (finish clock id result named) h = finish_job-IsSound clock id result db named h
Step-IsSound py db (reap minutes now clock) h = reap_stale_jobs-IsSound minutes now clock db h
Step-IsSound py db (purge_jobs retention_days now clock) h =
    purge_old_jobs-IsSound retention_days now clock db h
Step-IsSound py db (log clock id event has) h = record_event-IsSound clock id event db has h
Step-IsSound py db (progress id pct stage steps) h = update_progress-IsSound id pct stage steps db h
Step-IsSound py db (cleanup clock) h = cleanup_stale_runs-IsSound clock db h
Step-IsSound py db (create clock mode trigger initiator path) h =
    create_run-IsSound clock mode trigger initiator path db h
Step-IsSound py db (close clock id status message scoped) h =
    finish_run-IsSound py clock id status message scoped db h
Step-IsSound py db (purge_runs retention_days now clock) h =
    purge_old_runs-IsSound retention_days now clock db h

-- From sound tables, every sequence of operations leads to sound tables: the ids of jobs, events
-- and runs stay distinct and below their sequence, every event belongs to a job that is there, and
-- every run that a job names is there, also after the retention sweeps.
pub Reach-IsSound :
    (py : DateTimeText) (db after : Db) → Reach py db after → IsSound db → IsSound after
Reach-IsSound py db after here h = h
Reach-IsSound py db after (next {mid} r step) h =
    Step-IsSound py mid step (Reach-IsSound py db mid r h)

abbrev pub empty : Db
empty = record {
  jobs = [];
  events = [];
  runs = [];
  states = [];
  credentials = [];
  usage_events = [];
  next_job_id = 1;
  next_event_id = 1;
  next_run_id = 1;
}
