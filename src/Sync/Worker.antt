-- ===== src/Sync/Worker.antt =====
-- sync_worker.py: one tick of the worker, claiming and running a job or closing orphaned rows.
--
-- As in `Sync.Orchestrator`, a call that raises is answered by a record of failures, and has
-- written nothing. The session of the worker is never rolled back: after a write that raised, the
-- next one raises too. Opening and closing the worker's own database session is not modelled.
pub mod Settles
pub mod Orphans
use yclients_project.Prelude.{
  ℕ, Bool, true, false, not, ◌&&◌, Option, none, some, List, [], ◌∷◌, ◌==◌, if◌then◌else◌, is_none,
}
use yclients_project.Prelude.Text.{Text, codes}
use yclients_project.Sync.Tables.{Db, SyncJob, JobStatus, StepResult}
use yclients_project.Sync.Parsing.{DateTimeText}
use yclients_project.Sync.Control.{get_running_run, cleanup_stale_runs}
use yclients_project.Sync.Jobs.{
  Result, claim_next_job, release_job_to_queue, finish_job, has_running_job, reap_stale_jobs,
}
use yclients_project.Sync.Orchestrator.{
  World, Attempt, returned, raised, Env, Args, SyncResult, SyncStatus, JobResult,
}
use yclients_project.Sync.Orchestrator.Run.{with_db, acquire_lock, release_lock, run_sync_job}

-- `none` for a call that does not raise. `aborted_session` is what a write on a session raises
-- once an earlier write on it has raised.
pub record Failures : Type 0 where
  pub lookup_raises : Option Text
  pub claim_raises : Option Text
  pub release_raises : Option Text
  pub finish_raises : Option Text
  pub second_finish_raises : Option Text
  pub aborted_session : Text

abbrev pub initiator_or_worker : Text → Text
initiator_or_worker [] = codes "worker"
initiator_or_worker (c ∷ s) = c ∷ s

-- The arguments that `process_next_job` passes to `run_sync_job`.
abbrev pub args_of : SyncJob → Args
args_of job = record {
  mode = some job.mode;
  trigger_type = some (codes "queued");
  initiator = initiator_or_worker job.initiator;
  job_id = some job.id;
  portal_account_id = job.portal_account_id;
  credential_id = job.credential_id;
  company_ids = job.company_ids;
}

abbrev pub job_status_of : SyncStatus → JobStatus
job_status_of SyncStatus.already_running = JobStatus.other (codes "already_running")
job_status_of SyncStatus.success = JobStatus.success
job_status_of SyncStatus.failed = JobStatus.failed

abbrev pub is_already_running : SyncStatus → Bool
is_already_running SyncStatus.already_running = true
is_already_running SyncStatus.success = false
is_already_running SyncStatus.failed = false

abbrev pub steps_of_result : Option SyncResult → Option (List StepResult)
steps_of_result none = none
steps_of_result (some result) = some result.step_results

-- The dictionary of `run_sync_job` as `finish_job` reads it.
abbrev pub result_of : JobResult → Result
result_of result = record {
  run_id = result.run_id;
  status = some (job_status_of result.status);
  sync_result = steps_of_result result.sync_result;
  error = result.error;
  detail = none;
}

abbrev pub failure_of : Text → Result
failure_of error = record {
  run_id = none;
  status = some JobStatus.failed;
  sync_result = none;
  error = some error;
  detail = none;
}

-- The `except` branch once a job was claimed: the exception goes on, or the second one replaces
-- it. `aborted` says that the exception is one of the worker's own session.
unfoldable pub fail_job : Failures → ℕ → SyncJob → Bool → Text → World → World × Attempt Bool
fail_job failures clock job aborted error w =
    if aborted then (w, raised failures.aborted_session) else elim failures.second_finish_raises [
      | some second ↦ (w, raised second)
      | none ↦ (with_db w (finish_job clock job.id (failure_of error) w.db), raised error)
    ]

-- What follows the return of `run_sync_job`.
unfoldable pub settle_job : Failures → ℕ → SyncJob → JobResult → World → World × Attempt Bool
unfolding fail_job
settle_job failures clock job result w =
    if is_already_running result.status
    then elim failures.release_raises [
      | some error ↦ fail_job failures clock job true error w
      | none ↦ (with_db w (release_job_to_queue job.id w.db), returned false)
    ]
    else elim failures.finish_raises [
      | some error ↦ fail_job failures clock job true error w
      | none ↦ (with_db w (finish_job clock job.id (result_of result) w.db), returned true)
    ]

module _ (py : DateTimeText) (clock : ℕ) (env : Env) (failures : Failures) (me : ℕ) where
  unfoldable pub run_job : SyncJob → World → World × Attempt Bool
  run_job job w =
      let (ran, outcome) = run_sync_job py clock (args_of job) env me w in
      elim outcome [
        | raised error ↦ fail_job failures clock job false error ran
        | returned result ↦ settle_job failures clock job result ran
      ]

  unfoldable pub process_next_job : World → World × Attempt Bool
  process_next_job w = elim failures.lookup_raises [
    | some error ↦ (w, raised error)
    | none ↦ elim (get_running_run w.db) [
      | some run ↦ (w, returned false)
      | none ↦ elim failures.claim_raises [
        | some error ↦ (w, raised error)
        | none ↦
            (let (db, found) = claim_next_job clock w.db in
              let idle : World × Attempt Bool = (w, returned false) in
              elim found [ none ↦ idle | some job ↦ run_job job (with_db w db) ])
      ]
    ]
  ]

-- What the sweeps of the idle branch may raise.
pub record SweepFailures : Type 0 where
  pub cleanup_raises : Option Text
  pub reap_raises : Option Text

-- The body that runs while the probe holds the lock.
unfoldable pub close_orphans : ℕ → ℕ → SweepFailures → Db → Db × Option Text
close_orphans stale_minutes clock failures db = elim failures.cleanup_raises [
  | some error ↦ (db, some error)
  | none ↦
      (let cleaned = (cleanup_stale_runs clock db).0 in
        elim failures.reap_raises [
          | some error ↦ (cleaned, some error)
          | none ↦ ((reap_stale_jobs stale_minutes none clock cleaned).0, none)
        ])
]

-- `me` is the session of the probe's own connection.
unfoldable pub reap_orphans_if_no_sync_running :
    ℕ → ℕ → SweepFailures → ℕ → World → World × Option Text
reap_orphans_if_no_sync_running stale_minutes clock failures me w =
    let (probed, acquired) = acquire_lock me w in
    let (db, error) = close_orphans stale_minutes clock failures probed.db in
    if is_none (get_running_run w.db) && not (has_running_job w.db)
    then (w, none)
    else if not acquired
    then (probed, none)
    else (release_lock me (with_db probed db), error)
