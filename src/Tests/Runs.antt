-- ===== src/Tests/Runs.antt =====
-- The run register, the orchestrator and the state table at concrete tables.
use yclients_project.Prelude.{
  ℕ, ◌+◌, ◌<◌, ◌≡◌, ◌≢◌, ◌⊎◌, refl, true, false, none, some, [], ◌∷◌, arith, inl, IsIn,
}
use yclients_project.Prelude.Keyed.{IsKeyed}
use yclients_project.Prelude.Text.{codes}
use yclients_project.Sync.Tables.{Db, SyncRun, days, run_is_running}
use yclients_project.Sync.Parsing.{serialize_dt, parse_datetime, text, parse_datetime-serialize_dt}
use yclients_project.Sync.State.{run_if_due, last_ran_at}
use yclients_project.Sync.State.Throttle.{run_if_due_twice}
use yclients_project.Sync.Control.{
  get_latest_run, purge_old_runs, get_status_payload, run_retention_key,
}
use yclients_project.Sync.Control.Retention.{run_key, purge_old_runs_lem, get_latest_run-purge}
use yclients_project.Sync.Jobs.{enqueue_job, claim_next_job}
use yclients_project.Sync.Integrity.{IsSound}
use yclients_project.Sync.Integrity.Steps.{Reach, Step, empty, Reach-IsSound}
use yclients_project.Sync.Orchestrator.{World, Env, Args, JobResult, SyncStatus, returned, raised}
use yclients_project.Sync.Orchestrator.Run.{run_sync_job}
use yclients_project.Sync.Orchestrator.Runs.{NoneRunning}
use yclients_project.Sync.Orchestrator.Release.{run_sync_job_closes, run_sync_job_unlocks}
use yclients_project.Sync.Orchestrator.Outcome.{run_sync_job-NoneRunning}
use yclients_project.Sync.Orchestrator.Gate.{gate, gate-run_sync_job}
use yclients_project.Tests.{unary, older_run, finished_run, orphan, filled, idle, quiet}

empty-IsSound : IsSound empty
empty-IsSound = record {
  jobs = record { keyed = λ a b i j e. absurd i; below = λ a i. absurd i };
  runs = record { keyed = λ a b i j e. absurd i; below = λ a i. absurd i };
  events = record { keyed = λ a b i j e. absurd i; below = λ a i. absurd i };
  events_fit = λ e i. absurd i;
  runs_fit = λ j r i e. absurd i;
}

abbrev queued_db : Db
queued_db = (enqueue_job 5 none (codes "owner") (some 7) none none empty).0

abbrev claimed_db : Db
claimed_db = (claim_next_job 6 queued_db).0

Reach-IsSound_example : IsSound claimed_db
Reach-IsSound_example =
    Reach-IsSound unary empty claimed_db
      (Reach.next (Reach.next Reach.here (Step.enqueue 5 none (codes "owner") (some 7) none none))
        (Step.claim 6))
      empty-IsSound

abbrev queued_args : Args
queued_args = record {
  mode = some (codes "full");
  trigger_type = none;
  initiator = codes "owner";
  job_id = some 2;
  portal_account_id = some 7;
  credential_id = none;
  company_ids = [];
}

-- The pipeline raises, after the lock was taken.
abbrev failing : Env
failing = record quiet { sync = raised (codes "timeout") }

abbrev orphaned : World
orphaned = record idle { db = record filled { runs = finished_run ∷ orphan ∷ [] } }

run_sync_job_unlocks_example : (run_sync_job unary 10 queued_args failing 9 orphaned).0.lock ≡ none
run_sync_job_unlocks_example =
    run_sync_job_unlocks unary 10 queued_args failing 9 orphaned (λ e. ground arith) refl refl

run_sync_job_closes_example :
    ((run_sync_job unary 10 queued_args failing 9 orphaned).0.lock_conn_open ≡ false)
    × ((run_sync_job unary 10 queued_args failing 9 orphaned).0.control_open ≡ false)
run_sync_job_closes_example =
    run_sync_job_closes unary 10 queued_args failing 9 orphaned refl refl refl

abbrev held : World
held = record orphaned { lock = some 3 }

abbrev failed_result : JobResult
failed_result = record {
  started = true;
  status = SyncStatus.failed;
  detail = none;
  run_id = some 3;
  sync_result = none;
  error = some (codes "timeout");
}

run_sync_job-NoneRunning_example :
    NoneRunning (run_sync_job unary 10 queued_args failing 9 orphaned).0.db
unfolding run_sync_job yclients_project.Sync.Orchestrator.Run.acquire_lock
    yclients_project.Sync.Orchestrator.Run.set_up
    yclients_project.Sync.Orchestrator.Run.release_and_close
    yclients_project.Sync.Orchestrator.Run.run_and_report yclients_project.Sync.Control.create_run
    yclients_project.Sync.Control.cleanup_stale_runs
run_sync_job-NoneRunning_example =
    run_sync_job-NoneRunning unary 10 queued_args failing 9 orphaned failed_result refl refl

gate-run_sync_job_example :
    gate (run_sync_job unary 10 queued_args quiet 9 orphaned).0.db ≡ gate orphaned.db
gate-run_sync_job_example = gate-run_sync_job unary 10 queued_args quiet refl 9 orphaned

filled-run-IsKeyed : IsKeyed run_key filled.runs
filled-run-IsKeyed a b i j e = ground arith

abbrev late : ℕ
late = days 1000

purge_old_runs_lem_example :
    IsIn older_run (purge_old_runs 30 (some late) late filled).0.runs
    ⊎ ((run_is_running older_run.status ≡ false)
        × (older_run.started_at + days 30 < late)
        × ((latest : SyncRun) → get_latest_run filled ≡ some latest → latest ≢ older_run))
purge_old_runs_lem_example =
    purge_old_runs_lem 30 late late filled filled-run-IsKeyed older_run (inl refl)

get_latest_run-purge_example :
    get_latest_run (purge_old_runs 30 (some late) late filled).0 ≡ get_latest_run filled
get_latest_run-purge_example = get_latest_run-purge 30 late late filled filled-run-IsKeyed

parse_datetime-serialize_dt_example : parse_datetime unary (text (codes "T11")) ≡ some 2
unfolding serialize_dt unary
parse_datetime-serialize_dt_example = parse_datetime-serialize_dt unary 2 (codes "T11") refl

abbrev no_sweep : ℕ → Db → Db × ℕ
no_sweep moment db = (db, 0)

run_if_due_twice_example :
    run_if_due unary run_retention_key 24
      (some 5)
      5
      no_sweep
      (run_if_due unary run_retention_key 24 (some 3) 3 no_sweep filled).0
    ≡ ((run_if_due unary run_retention_key 24 (some 3) 3 no_sweep filled).0, none)
unfolding run_if_due last_ran_at parse_datetime yclients_project.Sync.State.get_state_value
run_if_due_twice_example =
    run_if_due_twice unary run_retention_key 24 no_sweep no_sweep 3 5 3 5 filled
      (run_if_due unary run_retention_key 24 (some 3) 3 no_sweep filled).0 0 (λ m d. refl) refl
      (omega arith)
