-- ===== src/Sync/Jobs/Reap.antt =====
-- sync_jobs.py: which rows `reap_stale_jobs` fails.
use yclients_project.Prelude.{
  ℕ, ◌+◌, ◌<◌, ◌≤◌, ◌≡◌, ◌⊎◌, refl, ap, Bool, true, false, none, some, arith, if◌then◌else◌, IsIn,
  leb,
}
use yclients_project.Prelude.Rows.{update_where, IsIn-update, update-IsIn_hit, update-IsIn_miss}
use yclients_project.Sync.Tables.{Db, SyncJob, JobStatus, is_running, minutes}
use yclients_project.Sync.Jobs.{get_or, is_stale_job, reaped, reap_stale_jobs}

-- When the job started, or was requested if it never did.
abbrev pub since : SyncJob → ℕ
since job = get_or job.started_at job.requested_at

-- The row of the job is there, failed, with this moment as its end.
abbrev pub HasFailed : ℕ → ℕ → Db → Type 0
HasFailed id now db =
    (job : SyncJob) × IsIn job db.jobs
    × (job.id ≡ id)
    × (job.status ≡ JobStatus.failed)
    × (job.finished_at ≡ some now)

-- No running job started longer ago than the limit.
abbrev pub NoneOverdue : ℕ → ℕ → Db → Type 0
NoneOverdue max_running_minutes now db =
    (job : SyncJob)
    → IsIn job db.jobs
    → job.status ≡ JobStatus.running
    → now ≤ since job + minutes max_running_minutes

module _ (max_running_minutes now clock : ℕ) (db : Db) (enabled : 0 < max_running_minutes) where
  is_stale : SyncJob → Bool
  is_stale = is_stale_job max_running_minutes now

  swept_row :
      (old job : SyncJob)
      → (if is_stale old then reaped now old else old) ≡ job
      → is_running job.status ≡ true
      → now ≤ since job + minutes max_running_minutes
  unfolding is_stale
  swept_row old job e live = ground arith

  kept_row :
      (job : SyncJob)
      → (is_running job.status ≡ false) ⊎ (now ≤ since job + minutes max_running_minutes)
      → is_stale job ≡ false
  unfolding is_stale
  kept_row job h = ground arith

  overdue_row :
      (job : SyncJob)
      → is_running job.status ≡ true
      → since job + minutes max_running_minutes < now
      → is_stale job ≡ true
  unfolding is_stale
  overdue_row job live old = ground arith

  swept :
      (reap_stale_jobs max_running_minutes (some now) clock db).0.jobs
      ≡ update_where is_stale (reaped now) db.jobs
  unfolding reap_stale_jobs is_stale
  swept = let e : leb max_running_minutes 0 ≡ false = ground arith in rw e refl

  -- With a limit above 0, after the sweep no running job started (or was requested, if it never
  -- started) longer ago than the limit; a job that was not running, or was younger, is the row
  -- that it was; and a running one that was older is failed, with the moment of the sweep as its
  -- end.
  pub reap_stale_jobs_lem :
      let after = (reap_stale_jobs max_running_minutes (some now) clock db).0 in
      NoneOverdue max_running_minutes now after
      × ((job : SyncJob)
          → IsIn job db.jobs
          → (is_running job.status ≡ false) ⊎ (now ≤ since job + minutes max_running_minutes)
          → IsIn job after.jobs)
      × ((job : SyncJob)
          → IsIn job db.jobs
          → job.status ≡ JobStatus.running
          → since job + minutes max_running_minutes < now
          → HasFailed job.id now after)
  reap_stale_jobs_lem = rw swept (
    λ job i live.
        let (old, j, q) = IsIn-update is_stale (reaped now) job db.jobs i in
        swept_row old job q (ap is_running live),
    λ job i h. update-IsIn_miss is_stale (reaped now) job db.jobs i (kept_row job h),
    λ job i live old. (
      reaped now job,
      update-IsIn_hit is_stale (reaped now) job db.jobs i
          (overdue_row job (ap is_running live) old),
      refl,
      refl,
      refl,
    ),
  )

pub reap_stale_jobs-none :
    (max_running_minutes clock : ℕ) (db : Db)
    → 0 < max_running_minutes
    → NoneOverdue max_running_minutes clock (reap_stale_jobs max_running_minutes none clock db).0
unfolding reap_stale_jobs
reap_stale_jobs-none max_running_minutes clock db enabled =
    (reap_stale_jobs_lem max_running_minutes clock clock db enabled).0
