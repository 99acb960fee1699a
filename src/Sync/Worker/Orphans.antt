-- ===== src/Sync/Worker/Orphans.antt =====
-- sync_worker.py: which rows the idle branch closes.
use yclients_project.Prelude.{
  ℕ, ◌<◌, ◌≡◌, ◌≢◌, subst, sym, ap, ◌∙◌, Bool, true, false, not, ◌&&◌, none, some, List, [], ◌∷◌,
  arith, if◌then◌else◌, Bool-cases, inl, inr, IsIn, is_none, any,
}
use yclients_project.Sync.Tables.{Db, SyncJob, SyncRun, is_running, run_is_running}
use yclients_project.Sync.Control.{get_running_run, run_newer, cleanup_stale_runs}
use yclients_project.Sync.Control.Retention.{run_newer-IsOrder}
use yclients_project.Prelude.Rows.{select, select-IsIn, first-none}
use yclients_project.Sync.Jobs.{has_running_job, reap_stale_jobs}
use yclients_project.Sync.Jobs.Reap.{NoneOverdue, reap_stale_jobs-none}
use yclients_project.Sync.Orchestrator.{World}
use yclients_project.Sync.Orchestrator.Run.{acquire_lock, release_lock}
use yclients_project.Sync.Orchestrator.Runs.{NoneRunning, NoneRunning-cleanup, NoneRunning-same}
use yclients_project.Sync.Worker.{SweepFailures, close_orphans, reap_orphans_if_no_sync_running}

no_running_run :
    (db : Db) (run : SyncRun)
    → get_running_run db ≡ none
    → IsIn run db.runs
    → run_is_running run.status ≡ false
unfolding get_running_run
no_running_run db run e i = elim (Bool-cases (run_is_running run.status)) [
  | inr dead ↦ dead
  | inl live ↦
      (absurd (
        first-none run_newer run_newer-IsOrder run (select (λ r. run_is_running r.status) db.runs) e
          (select-IsIn (λ r. run_is_running r.status) run db.runs i live)))
]

any-false :
    {A : Type 0} (p : A → Bool) (x : A) (xs : List A) → any p xs ≡ false → IsIn x xs → p x ≡ false
any-false p x [] h i = absurd i
any-false p x (y ∷ ys) h (inl e) = ap p (sym e) ∙ ground arith
any-false p x (y ∷ ys) h (inr i) = any-false p x ys (ground arith) i

no_running_job :
    (db : Db) (job : SyncJob)
    → has_running_job db ≡ false
    → IsIn job db.jobs
    → is_running job.status ≡ false
unfolding has_running_job
no_running_job db job e i = any-false (λ j. is_running j.status) job db.jobs e i

-- No run is running, and no running job started longer ago than the limit.
unfoldable pub IsClosed : ℕ → ℕ → Db → Type 0
IsClosed stale_minutes clock db = NoneRunning db × NoneOverdue stale_minutes clock db

nothing_to_close :
    (stale_minutes clock : ℕ) (db : Db)
    → (is_none (get_running_run db) && not (has_running_job db)) ≡ true
    → IsClosed stale_minutes clock db
unfolding IsClosed
nothing_to_close stale_minutes clock db e =
    let run_free : get_running_run db ≡ none = ground arith in
    let job_free : has_running_job db ≡ false = ground arith in
    (
      λ run i. no_running_run db run run_free i,
      λ job i live. cc (no_running_job db job job_free i, ap is_running live),
    )

reap-runs :
    (stale_minutes clock : ℕ) (db : Db)
    → (reap_stale_jobs stale_minutes none clock db).0.runs ≡ db.runs
unfolding reap_stale_jobs
reap-runs stale_minutes clock db = ground arith

close_orphans-IsClosed :
    (stale_minutes clock : ℕ) (failures : SweepFailures) (db : Db)
    → 0 < stale_minutes
    → failures.cleanup_raises ≡ none
    → failures.reap_raises ≡ none
    → IsClosed stale_minutes clock (close_orphans stale_minutes clock failures db).0
unfolding close_orphans IsClosed
close_orphans-IsClosed stale_minutes clock failures db enabled cleans reaps =
    let cleaned : Db = (cleanup_stale_runs clock db).0 in
    let closed : NoneRunning (reap_stale_jobs stale_minutes none clock cleaned).0 =
      NoneRunning-same cleaned (reap_stale_jobs stale_minutes none clock cleaned).0
        (reap-runs stale_minutes clock cleaned) (NoneRunning-cleanup clock db) in
    rw (cleans, reaps) (closed, (reap_stale_jobs-none stale_minutes clock cleaned enabled))

module _ (stale_minutes clock : ℕ) (failures : SweepFailures) (me : ℕ) (w : World) where
  -- While another session holds the lock, nothing is changed.
  pub reap_orphans_busy :
      (holder : ℕ)
      → w.lock ≡ some holder
      → holder ≢ me
      → reap_orphans_if_no_sync_running stale_minutes clock failures me w ≡ (w, none)
  unfolding reap_orphans_if_no_sync_running acquire_lock
  reap_orphans_busy holder held other = ground arith

  -- When the session does not hold the lock yet, the lock is as it was before the call, whatever
  -- the sweeps raise.
  pub reap_orphans_unlocks :
      w.lock ≢ some me
      → (reap_orphans_if_no_sync_running stale_minutes clock failures me w).0.lock ≡ w.lock
  unfolding reap_orphans_if_no_sync_running acquire_lock release_lock
  reap_orphans_unlocks other = ground arith

  swept : Db
  swept = (close_orphans stale_minutes clock failures (acquire_lock me w).0.db).0

  idle : Bool
  idle = is_none (get_running_run w.db) && not (has_running_job w.db)

  reap_orphans_db :
      w.lock ≡ none
      → (reap_orphans_if_no_sync_running stale_minutes clock failures me w).0.db
        ≡ (if idle then w.db else swept)
  unfolding reap_orphans_if_no_sync_running acquire_lock release_lock idle swept
  reap_orphans_db free = ground arith

  -- When the lock is free, the limit is above 0 and the sweeps do not raise, no run is left
  -- running, and no running job is left that started (or was requested, if it never started)
  -- longer ago than the limit.
  pub reap_orphans_closes :
      0 < stale_minutes
      → w.lock ≡ none
      → failures.cleanup_raises ≡ none
      → failures.reap_raises ≡ none
      → let after = (reap_orphans_if_no_sync_running stale_minutes clock failures me w).0.db in
        IsClosed stale_minutes clock after
  unfolding idle swept
  reap_orphans_closes enabled free cleans reaps =
      subst (IsClosed stale_minutes clock) (sym (reap_orphans_db free)) (elim (Bool-cases idle) [
        | inl e ↦ rw e (nothing_to_close stale_minutes clock w.db e)
        | inr e ↦
            (rw e (
              close_orphans-IsClosed stale_minutes clock failures (acquire_lock me w).0.db enabled
                cleans reaps))
      ])
