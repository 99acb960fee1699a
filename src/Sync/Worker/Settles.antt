-- ===== src/Sync/Worker/Settles.antt =====
-- sync_worker.py: the claimed job after `process_next_job`.
use yclients_project.Prelude.{ℕ, ◌≡◌, refl, false, none, some, arith, ◌==◌, IsIn}
use yclients_project.Prelude.Text.{Text}
use yclients_project.Prelude.Rows.{IsIn-update}
use yclients_project.Sync.Tables.{Db, SyncJob, SyncRun, is_running}
use yclients_project.Sync.Parsing.{DateTimeText}
use yclients_project.Sync.Control.{get_running_run}
use yclients_project.Sync.Jobs.{
  Result, claim_next_job, release_job_to_queue, released, finish_job, finished, status_or_failed,
}
use yclients_project.Sync.Orchestrator.{World, returned, Env, JobResult}
use yclients_project.Sync.Worker.{
  Failures, failure_of, fail_job, settle_job, run_job, process_next_job,
}

-- No row with this id is running.
unfoldable pub IsSettled : ℕ → Db → Type 0
IsSettled id db = (k : SyncJob) → IsIn k db.jobs → k.id ≡ id → is_running k.status ≡ false

finish_job-IsSettled :
    (clock id : ℕ) (result : Result) (db : Db)
    → is_running (status_or_failed result.status) ≡ false
    → IsSettled id (finish_job clock id result db)
unfolding finish_job IsSettled
finish_job-IsSettled clock id result db h k i e =
    let (old, j, q) = IsIn-update (λ job. job.id == id) (finished clock result) k db.jobs i in
    ground arith

release_job-IsSettled : (id : ℕ) (db : Db) → IsSettled id (release_job_to_queue id db)
unfolding release_job_to_queue IsSettled
release_job-IsSettled id db k i e =
    let (old, j, q) = IsIn-update (λ job. job.id == id) released k db.jobs i in ground arith

fail_job-IsSettled :
    (failures : Failures) (clock : ℕ) (job : SyncJob) (error : Text) (w : World)
    → failures.second_finish_raises ≡ none
    → IsSettled job.id (fail_job failures clock job false error w).0.db
unfolding fail_job
fail_job-IsSettled failures clock job error w quiet =
    rw quiet (finish_job-IsSettled clock job.id (failure_of error) w.db refl)

settle_job-IsSettled :
    (failures : Failures) (clock : ℕ) (job : SyncJob) (result : JobResult) (w : World)
    → failures.release_raises ≡ none
    → failures.finish_raises ≡ none
    → IsSettled job.id (settle_job failures clock job result w).0.db
unfolding settle_job
settle_job-IsSettled failures clock job result w releases finishes =
    grind (arith, finish_job-IsSettled, release_job-IsSettled)

module _ (py : DateTimeText) (clock : ℕ) (env : Env) (failures : Failures) (me : ℕ) where
  run_job-IsSettled :
      (job : SyncJob) (w : World)
      → failures.release_raises ≡ none
      → failures.finish_raises ≡ none
      → failures.second_finish_raises ≡ none
      → IsSettled job.id (run_job py clock env failures me job w).0.db
  unfolding run_job
  run_job-IsSettled job w releases finishes quiet =
      grind (arith, fail_job-IsSettled, settle_job-IsSettled)

  -- When no run is running and neither the look at the register nor the claim raises, the job
  -- that a tick claims is not left running, whatever the synchronization returns or raises, if
  -- the worker's own writes (the release of the job, its result, its failure) do not raise.
  pub process_next_job_settles :
      (w : World) (db : Db) (job : SyncJob)
      → failures.lookup_raises ≡ none
      → failures.claim_raises ≡ none
      → failures.release_raises ≡ none
      → failures.finish_raises ≡ none
      → failures.second_finish_raises ≡ none
      → get_running_run w.db ≡ none
      → claim_next_job clock w.db ≡ (db, some job)
      → IsSettled job.id (process_next_job py clock env failures me w).0.db
  unfolding process_next_job
  process_next_job_settles w db job looked claims releases finishes quiet free claim =
      grind (arith, run_job-IsSettled)

  -- While the register shows a running run, a tick claims nothing and writes nothing.
  pub process_next_job_waits :
      (w : World) (run : SyncRun)
      → get_running_run w.db ≡ some run
      → failures.lookup_raises ≡ none
      → process_next_job py clock env failures me w ≡ (w, returned false)
  unfolding process_next_job
  process_next_job_waits w run found looked = ground arith
