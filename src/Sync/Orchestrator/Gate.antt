-- ===== src/Sync/Orchestrator/Gate.antt =====
-- sync_orchestrator.py: the state key that gates the automatic enqueue, under a scoped run.
use yclients_project.Prelude.{
  ℕ, ◌≡◌, refl, ap, ◌∙◌, true, Option, List, arith, Bool-cases, inl, inr,
}
use yclients_project.Prelude.Text.{Text}
use yclients_project.Sync.Tables.{Db, SyncRun, RunStatus, run_is_success}
use yclients_project.Sync.Parsing.{DateTimeText, datetime, naive}
use yclients_project.Sync.State.{get_state_value}
use yclients_project.Sync.State.Throttle.{get_state_value-set_state}
use yclients_project.Sync.Control.{
  finish_run, unscoped_success_key, successful_sync_key, cleanup_stale_runs, create_run,
}
use yclients_project.Sync.Orchestrator.{
  World, Attempt, Env, Args, SyncResult, ProgressEvent, is_scoped, record_progress, record_all,
}
use yclients_project.Sync.Orchestrator.Runs.{runs-record_progress, runs-record_all}
use yclients_project.Sync.Orchestrator.Run.{
  acquire_lock, release_and_close, set_up, run_pipeline, fail_run, run_and_report, run_sync_job,
}

-- What the worker reads as the moment of the last unscoped success.
abbrev pub gate : Db → Option Text
gate db = get_state_value unscoped_success_key db.states

gate-finish_run :
    (py : DateTimeText) (clock id : ℕ) (status : RunStatus) (message : Text) (db : Db)
    → gate (finish_run py clock id status message true db) ≡ gate db
unfolding finish_run
gate-finish_run py clock id status message db = elim (Bool-cases (run_is_success status)) [
  | inl e ↦ rw e (
      get_state_value-set_state py unscoped_success_key successful_sync_key (datetime (naive clock))
        clock _ refl)
  | inr e ↦ rw e
]

gate-record_progress :
    (clock : ℕ) (args : Args) (event : ProgressEvent) (db : Db)
    → gate (record_progress clock args event db) ≡ gate db
gate-record_progress clock args event db =
    ap (get_state_value unscoped_success_key) (runs-record_progress clock args event db).1

gate-record_all :
    (clock : ℕ) (args : Args) (events : List ProgressEvent) (db : Db)
    → gate (record_all clock args events db) ≡ gate db
gate-record_all clock args events db =
    ap (get_state_value unscoped_success_key) (runs-record_all clock args events db).1

gate-cleanup : (clock : ℕ) (db : Db) → gate (cleanup_stale_runs clock db).0 ≡ gate db
unfolding cleanup_stale_runs
gate-cleanup clock db = refl

gate-create :
    (clock : ℕ) (mode trigger initiator path : Text) (db : Db)
    → gate (create_run clock mode trigger initiator path db).0 ≡ gate db
unfolding create_run
gate-create clock mode trigger initiator path db = refl

module _ (py : DateTimeText) (clock : ℕ) (args : Args) (env : Env)
    (scoped : is_scoped args ≡ true) where
  gate-finish :
      (id : ℕ) (status : RunStatus) (message : Text) (db : Db)
      → gate (finish_run py clock id status message (is_scoped args) db) ≡ gate db
  gate-finish id status message db =
      ap (λ b. gate (finish_run py clock id status message b db)) scoped
      ∙ gate-finish_run py clock id status message db

  gate-set_up : (w : World) → gate (set_up py clock args env w).0.db ≡ gate w.db
  unfolding set_up
  gate-set_up w = grind (arith, gate-cleanup, gate-create)

  gate-run_pipeline :
      (run : SyncRun) (db : Db) → gate (run_pipeline py clock args env run db).0 ≡ gate db
  unfolding run_pipeline
  gate-run_pipeline run db = grind (arith, gate-record_progress, gate-record_all, gate-finish)

  gate-fail_run :
      (run : SyncRun) (error : Text) (sync_result : Option SyncResult) (db : Db)
      → gate (fail_run py clock args env run error sync_result db).0 ≡ gate db
  unfolding fail_run
  gate-fail_run run error sync_result db = grind (arith, gate-record_progress, gate-finish)

  gate-run_and_report :
      (run : SyncRun) (db : Db) → gate (run_and_report py clock args env run db).0 ≡ gate db
  unfolding run_and_report
  gate-run_and_report run db = grind (arith, gate-run_pipeline, gate-fail_run)

  gate-release :
      {A : Type 0} (me : ℕ) (outcome : Attempt A) (w : World)
      → gate (release_and_close me env outcome w).0.db ≡ gate w.db
  unfolding release_and_close
  gate-release me outcome w = ground arith

  -- A synchronization limited to a tenant, a credential or branches leaves the moment of the last
  -- unscoped success as it was, whatever happens on the way.
  pub gate-run_sync_job :
      (me : ℕ) (w : World) → gate (run_sync_job py clock args env me w).0.db ≡ gate w.db
  unfolding run_sync_job acquire_lock
  gate-run_sync_job me w = grind (arith, gate-set_up, gate-run_and_report, gate-release)
