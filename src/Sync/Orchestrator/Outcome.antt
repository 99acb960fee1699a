-- ===== src/Sync/Orchestrator/Outcome.antt =====
-- sync_orchestrator.py: what a finished `run_sync_job` leaves in the run register.
use yclients_project.Prelude.{
  ℕ, ◌≡◌, refl, sym, ap, subst, ◌∙◌, true, Option, none, some, arith, if◌then◌else◌, inl, inr,
}
use yclients_project.Prelude.Text.{Text, codes}
use yclients_project.Sync.Tables.{Db, SyncRun, RunStatus}
use yclients_project.Sync.Parsing.{DateTimeText}
use yclients_project.Sync.Control.{cleanup_stale_runs, create_run, finish_run}
use yclients_project.Sync.Orchestrator.{
  World, returned, raised, Env, Args, JobResult, SyncResult, stage_event, normalize_or, is_scoped,
  record_progress, record_all,
}
use yclients_project.Sync.Orchestrator.Run.{
  acquire_lock, release_and_close, set_up, run_pipeline, fail_run, run_and_report, run_status,
  status_name, run_sync_job,
}
use yclients_project.Sync.Orchestrator.Runs.{
  NoneRunning-cleanup, OnlyRunning-create, runs-record_progress, runs-record_all,
  NoneRunning-finish_run, Attempt-cases, run_status_closed, OnlyRunning-same, NoneRunning-same,
  OnlyRunning, NoneRunning,
}

module _ (py : DateTimeText) (clock : ℕ) (args : Args) (env : Env) where
  started_db : Db → Db
  started_db db =
      record_progress clock args
        (stage_event (codes "running") (codes "started") 1 (codes "Sync started") none) db

  synced_db : Db → Db
  unfolding started_db
  synced_db db = record_all clock args env.sync_events (started_db db)

  done_db : SyncResult → Db → Db
  unfolding synced_db
  done_db result db =
      record_progress clock args
        (stage_event (status_name result.success) (status_name result.success)
          (if result.success then 100 else 99) result.summary (some result.step_results))
        (synced_db db)

  done_db-runs : (result : SyncResult) (db : Db) → (done_db result db).runs ≡ db.runs
  unfolding done_db
  done_db-runs result db =
      (runs-record_progress clock args _ (synced_db db)).0
      ∙ (runs-record_all clock args env.sync_events (started_db db)).0
      ∙ (runs-record_progress clock args _ db).0

  pipeline_returned :
      (run : SyncRun) (db : Db) (result : SyncResult)
      → (run_pipeline py clock args env run db).1 ≡ returned result
      → (run_pipeline py clock args env run db).0
        ≡ finish_run py clock run.id
            (run_status result.success)
            result.summary
            (is_scoped args)
            (done_db result db)
  unfolding run_pipeline done_db
  pipeline_returned run db result h = ground arith

  pipeline_raised :
      (run : SyncRun) (db : Db) (error : Text)
      → (run_pipeline py clock args env run db).1 ≡ raised error
      → (run_pipeline py clock args env run db).0.runs ≡ db.runs
  unfolding run_pipeline
  pipeline_raised run db error h = grind (arith, runs-record_progress, runs-record_all)

  fail_run_runs :
      (run : SyncRun) (error : Text) (sync_result : Option SyncResult) (db : Db)
      (result : JobResult)
      → (fail_run py clock args env run error sync_result db).1 ≡ returned result
      → (fail_run py clock args env run error sync_result db).0.runs
        ≡ (finish_run py clock run.id RunStatus.failed error (is_scoped args) db).runs
  unfolding fail_run
  fail_run_runs run error sync_result db result h = grind (arith, runs-record_progress)

  fail_run-NoneRunning :
      (run : SyncRun) (error : Text) (sync_result : Option SyncResult) (db : Db)
      (result : JobResult)
      → OnlyRunning run.id db
      → (fail_run py clock args env run error sync_result db).1 ≡ returned result
      → NoneRunning (fail_run py clock args env run error sync_result db).0
  fail_run-NoneRunning run error sync_result db result only h =
      NoneRunning-same (finish_run py clock run.id RunStatus.failed error (is_scoped args) db)
        (fail_run py clock args env run error sync_result db).0
        (fail_run_runs run error sync_result db result h)
        (NoneRunning-finish_run py clock run.id RunStatus.failed error (is_scoped args) db refl
          only)

  report_returned :
      (run : SyncRun) (db : Db) (result : SyncResult)
      → (run_pipeline py clock args env run db).1 ≡ returned result
      → (run_and_report py clock args env run db).0 ≡ (run_pipeline py clock args env run db).0
  unfolding run_and_report
  report_returned run db result e = rw (e, run_and_report)

  report_raised :
      (run : SyncRun) (db : Db) (error : Text)
      → (run_pipeline py clock args env run db).1 ≡ raised error
      → run_and_report py clock args env run db
        ≡ fail_run py clock args env run error
            (run_pipeline py clock args env run db).2
            (run_pipeline py clock args env run db).0
  unfolding run_and_report
  report_raised run db error e = rw (e, run_and_report)

  run_and_report-NoneRunning :
      (run : SyncRun) (db : Db) (result : JobResult)
      → OnlyRunning run.id db
      → (run_and_report py clock args env run db).1 ≡ returned result
      → NoneRunning (run_and_report py clock args env run db).0
  run_and_report-NoneRunning run db result only h =
      elim (Attempt-cases (run_pipeline py clock args env run db).1) [
        | inl (r, e) ↦
            (subst NoneRunning (sym (report_returned run db r e ∙ pipeline_returned run db r e)) (
              NoneRunning-finish_run py clock run.id (run_status r.success) r.summary
                (is_scoped args) (done_db r db) (run_status_closed r.success)
                (OnlyRunning-same run.id db (done_db r db) (done_db-runs r db) only)))
        | inr (error, e) ↦
            (let after : Db = (run_pipeline py clock args env run db).0 in
              let failed =
                fail_run py clock args env run error (run_pipeline py clock args env run db).2
                  after in
              let q = report_raised run db error e in
              NoneRunning-same failed.0 (run_and_report py clock args env run db).0
                (ap (λ r. r.0.runs) q)
                (fail_run-NoneRunning run error (run_pipeline py clock args env run db).2 after
                  result (OnlyRunning-same run.id db after (pipeline_raised run db error e) only)
                  (ap (λ r. r.1) (sym q) ∙ h)))
      ]

  set_up_created :
      (w ready : World) (run : SyncRun) (path : Text)
      → env.log_path ≡ returned path
      → set_up py clock args env w ≡ (ready, returned run)
      → create_run clock
          (normalize_or (codes "incremental") args.mode)
          (normalize_or (codes "manual") args.trigger_type)
          args.initiator
          path
          (cleanup_stale_runs clock w.db).0
        ≡ (ready.db, run)
  unfolding set_up
  set_up_created w ready run path e h = ground arith

  set_up_path :
      (w ready : World) (run : SyncRun)
      → set_up py clock args env w ≡ (ready, returned run)
      → (path : Text) × (env.log_path ≡ returned path)
  unfolding set_up
  set_up_path w ready run h = elim (Attempt-cases env.log_path) [
    | inl found ↦ found
    | inr (error, e) ↦ ground arith
  ]

  set_up-OnlyRunning :
      (w ready : World) (run : SyncRun)
      → set_up py clock args env w ≡ (ready, returned run)
      → OnlyRunning run.id ready.db
  set_up-OnlyRunning w ready run h =
      let (path, e) = set_up_path w ready run h in
      subst (λ (p : Db × SyncRun). OnlyRunning p.1.id p.0) (set_up_created w ready run path e h)
        (OnlyRunning-create clock (normalize_or (codes "incremental") args.mode)
          (normalize_or (codes "manual") args.trigger_type) args.initiator path
          (cleanup_stale_runs clock w.db).0 (NoneRunning-cleanup clock w.db))

  run_sync_job_path :
      (me : ℕ) (w ready : World) (run : SyncRun) (result : JobResult)
      → set_up py clock args env
          (acquire_lock me (record w { lock_conn_open = true; control_open = true })).0
        ≡ (ready, returned run)
      → (run_sync_job py clock args env me w).1 ≡ returned result
      → result.started ≡ true
      → ((run_and_report py clock args env run ready.db).1 ≡ returned result)
        × ((run_sync_job py clock args env me w).0.db
            ≡ (run_and_report py clock args env run ready.db).0)
  unfolding run_sync_job release_and_close
  run_sync_job_path me w ready run result made h started = ground arith

  set_up_returns :
      (me : ℕ) (w : World) (result : JobResult) (error : Text)
      → (set_up py clock args env
          (acquire_lock me (record w { lock_conn_open = true; control_open = true })).0).1
        ≡ raised error
      → (run_sync_job py clock args env me w).1 ≡ returned result
      → result.started ≡ true
      → ⊥
  unfolding run_sync_job release_and_close
  set_up_returns me w result error made h started = ground arith

  -- When the function returns a result for a run that it started, no run is left running: those
  -- that it found were abandoned, and its own was closed.
  pub run_sync_job-NoneRunning :
      (me : ℕ) (w : World) (result : JobResult)
      → (run_sync_job py clock args env me w).1 ≡ returned result
      → result.started ≡ true
      → NoneRunning (run_sync_job py clock args env me w).0.db
  run_sync_job-NoneRunning me w result h started =
      let opened : World = record w { lock_conn_open = true; control_open = true } in
      let made = set_up py clock args env (acquire_lock me opened).0 in
      elim (Attempt-cases made.1) [
        | inr (error, e) ↦ absurd (set_up_returns me w result error e h started)
        | inl (run, e) ↦
            (let q : made ≡ (made.0, returned run) = ap (λ o. (made.0, o)) e in
              let (r, d) = run_sync_job_path me w made.0 run result q h started in
              subst NoneRunning (sym d) (
                run_and_report-NoneRunning run made.0.db result
                  (set_up-OnlyRunning (acquire_lock me opened).0 made.0 run q) r))
      ]
