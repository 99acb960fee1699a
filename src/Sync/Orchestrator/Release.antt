-- ===== src/Sync/Orchestrator/Release.antt =====
-- sync_orchestrator.py: the lock and the connections of `run_sync_job`, on every path out of it.
use yclients_project.Prelude.{ℕ, ◌≡◌, ◌≢◌, false, none, some, arith}
use yclients_project.Sync.Parsing.{DateTimeText}
use yclients_project.Sync.Control.{get_status_payload}
use yclients_project.Sync.Orchestrator.{World, returned, Env, Args, SyncStatus}
use yclients_project.Sync.Orchestrator.Run.{acquire_lock, release_and_close, set_up, run_sync_job}

module _ (py : DateTimeText) (clock : ℕ) (args : Args) (env : Env) (me : ℕ) (w : World) where
  -- When the connection of the lock can be opened and neither close raises, both connections are
  -- given back, whatever else raises, and wherever.
  pub run_sync_job_closes :
      env.connect_raises ≡ none
      → env.lock_close_raises ≡ none
      → env.control_close_raises ≡ none
      → let after = (run_sync_job py clock args env me w).0 in
        (after.lock_conn_open ≡ false) × (after.control_open ≡ false)
  unfolding run_sync_job release_and_close
  run_sync_job_closes connects lock_closes control_closes = ground arith

  -- When the session does not hold the lock yet, a test of the lock that raises has not taken it,
  -- and the release does not raise, the lock is as it was before the call, whatever else raises:
  -- free if it was free, and with its holder if another session held it.
  pub run_sync_job_unlocks :
      w.lock ≢ some me
      → env.acquire_takes ≡ false
      → env.release_raises ≡ none
      → (run_sync_job py clock args env me w).0.lock ≡ w.lock
  unfolding run_sync_job acquire_lock release_and_close set_up
  run_sync_job_unlocks other untaken quiet = ground arith

  -- While another session holds the lock, and neither the connections, its test nor the status
  -- payload raise, no table is written, and the caller is told so.
  pub run_sync_job_busy :
      (holder : ℕ)
      → w.lock ≡ some holder
      → holder ≢ me
      → env.connect_raises ≡ none
      → env.acquire_raises ≡ none
      → env.status_raises ≡ none
      → env.lock_close_raises ≡ none
      → env.control_close_raises ≡ none
      → ((run_sync_job py clock args env me w).0.db ≡ w.db)
        × ((run_sync_job py clock args env me w).1
            ≡ returned (record {
              started = false;
              status = SyncStatus.already_running;
              detail = some (get_status_payload w.db);
              run_id = none;
              sync_result = none;
              error = none;
            }))
  unfolding run_sync_job acquire_lock
  run_sync_job_busy holder held other connects quiet told lock_closes control_closes =
      (ground arith, ground arith)
