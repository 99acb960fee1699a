-- ===== src/Sync/Orchestrator/Run.antt =====
-- sync_orchestrator.py: `run_sync_job`, stage by stage.
use yclients_project.Prelude.{
  ℕ, Bool, true, false, Option, none, some, List, [], ◌==◌, if◌then◌else◌,
}
use yclients_project.Prelude.Text.{Text, codes}
use yclients_project.Sync.Tables.{Db, SyncRun, RunStatus, StepResult}
use yclients_project.Sync.Parsing.{DateTimeText}
use yclients_project.Sync.Control.{get_status_payload, cleanup_stale_runs, create_run, finish_run}
use yclients_project.Sync.Orchestrator.{
  World, Attempt, returned, raised, SyncResult, Env, Args, SyncStatus, JobResult, normalize_or,
  is_scoped, record_progress, record_all, stage_event,
}

abbrev pub with_db : World → Db → World
with_db w db = record w { db = db }

-- `pg_try_advisory_lock` on the session `me`; a session may take its own lock again.
unfoldable pub acquire_lock : ℕ → World → World × Bool
acquire_lock me w = elim w.lock [
  | none ↦ (record w { lock = some me }, true)
  | some holder ↦ (w, holder == me)
]

abbrev pub unlocked : ℕ → Option ℕ → Option ℕ
unlocked me none = none
unlocked me (some holder) = if holder == me then none else some holder

-- `pg_advisory_unlock`: a session that does not hold the lock releases nothing.
unfoldable pub release_lock : ℕ → World → World
release_lock me w = record w { lock = unlocked me w.lock }

-- `lock_conn.close()`, then `control_db.close()`: the first that raises skips the rest, and its
-- exception replaces the outcome that the caller had.
abbrev pub close_both : {A : Type 0} → Env → Attempt A → World → World × Attempt A
close_both env outcome w = elim env.lock_close_raises [
  | some error ↦ (w, raised error)
  | none ↦ elim env.control_close_raises [
    | some error ↦ (record w { lock_conn_open = false }, raised error)
    | none ↦ (record w { lock_conn_open = false; control_open = false }, outcome)
  ]
]

-- `try: release_lock(lock_conn) finally: close both`. The exception of the release replaces the
-- outcome that the caller had.
unfoldable pub release_and_close : {A : Type 0} → ℕ → Env → Attempt A → World → World × Attempt A
unfolding release_lock
release_and_close me env outcome w = elim env.release_raises [
  | none ↦ close_both env outcome (release_lock me w)
  | some error ↦ close_both env (raised error) w
]

abbrev pub run_status : Bool → RunStatus
run_status ok = if ok then RunStatus.success else RunStatus.failed

abbrev pub status_of : Bool → SyncStatus
status_of ok = if ok then SyncStatus.success else SyncStatus.failed

abbrev pub status_name : Bool → Text
status_name ok = if ok then codes "success" else codes "failed"

abbrev pub steps_of : Option SyncResult → List StepResult
steps_of none = []
steps_of (some result) = result.step_results

abbrev pub give_up : ℕ → Env → Text → World → World × Attempt JobResult
give_up me env error w = release_and_close me env (raised error) w

module _ (py : DateTimeText) (clock : ℕ) (args : Args) (env : Env) where
  -- `build_log_path`, `cleanup_stale_runs` and `create_run`
  unfoldable pub set_up : World → World × Attempt SyncRun
  set_up w = elim env.log_path [
    | raised error ↦ (w, raised error)
    | returned path ↦ elim env.cleanup_raises [
      | some error ↦ (w, raised error)
      | none ↦
          (let cleaned = (cleanup_stale_runs clock w.db).0 in
            let mode = normalize_or (codes "incremental") args.mode in
            let trigger = normalize_or (codes "manual") args.trigger_type in
            let (created, run) = create_run clock mode trigger args.initiator path cleaned in
            elim env.create_raises [
              | some error ↦ (with_db w cleaned, raised error)
              | none ↦ (with_db w created, returned run)
            ])
    ]
  ]

  -- The body of the `try`: the pipeline's result, or the exception and the step results so far.
  unfoldable pub run_pipeline : SyncRun → Db → Db × Attempt SyncResult × Option SyncResult
  run_pipeline run db = elim env.start_event_raises [
    | some error ↦ (db, raised error, none)
    | none ↦
        (let started =
            record_progress clock args
              (stage_event (codes "running") (codes "started") 1 (codes "Sync started") none) db in
          let synced = record_all clock args env.sync_events started in
          elim env.sync [
            | raised error ↦ (synced, raised error, none)
            | returned result ↦
                (let name = status_name result.success in
                  let pct = if result.success then 100 else 99 in
                  let done =
                    record_progress clock args
                      (stage_event name name pct result.summary (some result.step_results))
                      synced in
                  let closed =
                    finish_run py clock run.id (run_status result.success) result.summary
                      (is_scoped args) done in
                  elim env.done_event_raises [
                    | some error ↦ (synced, raised error, some result)
                    | none ↦ elim env.finish_raises [
                      | some error ↦ (done, raised error, some result)
                      | none ↦ (closed, returned result, some result)
                    ]
                  ])
          ])
  ]

  -- The `except` branch: the run is closed as failed and the failure is reported.
  unfoldable pub fail_run : SyncRun → Text → Option SyncResult → Db → Db × Attempt JobResult
  fail_run run error sync_result db = elim env.second_finish_raises [
    | some second ↦ (db, raised second)
    | none ↦
        (let closed = finish_run py clock run.id RunStatus.failed error (is_scoped args) db in
          let result : JobResult = record {
            started = true;
            status = SyncStatus.failed;
            detail = none;
            run_id = some run.id;
            sync_result = sync_result;
            error = some error;
          } in
          let reported =
            record_progress clock args
              (stage_event (codes "failed") (codes "failed") 99 error (some (steps_of sync_result)))
              closed in
          elim env.fail_event_raises [
            | some third ↦ (closed, raised third)
            | none ↦ (reported, returned result)
          ])
  ]

  unfoldable pub run_and_report : SyncRun → Db → Db × Attempt JobResult
  unfolding run_pipeline fail_run
  run_and_report run db =
      let (after, outcome, sync_result) = run_pipeline run db in
      let failure = λ (error : Text). fail_run run error sync_result after in
      elim outcome [
        | raised error ↦ failure error
        | returned result ↦ (
          after,
          returned (record {
            started = true;
            status = status_of result.success;
            detail = none;
            run_id = some run.id;
            sync_result = some result;
            error = none;
          }),
        )
      ]

  busy : World → World × Attempt JobResult
  busy w = elim env.status_raises [
    | some error ↦ close_both env (raised error) w
    | none ↦
        close_both env
          (returned (record {
            started = false;
            status = SyncStatus.already_running;
            detail = some (get_status_payload w.db);
            run_id = none;
            sync_result = none;
            error = none;
          }))
          w
  ]

  locked : ℕ → World → World × Attempt JobResult
  locked me w =
      let (ready, made) = set_up w in
      let giving_up = λ (error : Text). give_up me env error ready in
      let finishing = λ (run : SyncRun).
        let (db, outcome) = run_and_report run ready.db in
        release_and_close me env outcome (with_db ready db) in
      elim made [ raised error ↦ giving_up error | returned run ↦ finishing run ]

  -- `me` is the session of the lock's own connection, which is opened after the session of the run. The notification at the end is caught
  -- whatever it raises, and changes nothing here.
  unfoldable pub run_sync_job : ℕ → World → World × Attempt JobResult
  unfolding busy locked
  run_sync_job me w =
      let opened = record w { lock_conn_open = true; control_open = true } in
      let (taken, acquired) = acquire_lock me opened in
      let interrupted = if env.acquire_takes then taken else opened in
      elim env.connect_raises [
        | some error ↦ (record w { control_open = true }, raised error)
        | none ↦ elim env.acquire_raises [
          | some error ↦ close_both env (raised error) interrupted
          | none ↦ (let under = locked me taken in if acquired then under else busy taken)
        ]
      ]
