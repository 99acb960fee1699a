-- ===== src/Sync/Jobs/Retained.antt =====
-- sync_jobs.py: the rows that the queue reports, before and after `purge_old_jobs`.
use yclients_project.Prelude.{ℕ, ◌≡◌, true, Option, none, some, List, arith, IsIn, same_id}
use yclients_project.Prelude.Rows.{select, first-order_by, first-same, IsIn-select, select-IsIn}
use yclients_project.Sync.Tables.{Db, SyncJob}
use yclients_project.Sync.Jobs.{
  is_active, purge_old_jobs, scoped_query, job_newer, active_before, get_latest_job, get_active_job,
}
use yclients_project.Sync.Jobs.Queue.{JobsKeyed, job_newer-IsOrder, active_before-IsOrder}
use yclients_project.Sync.Jobs.Purge.{purged-sub, purge_keeps_active, purge_keeps_latest}

scoped-sub :
    (account : Option ℕ) (job : SyncJob) (jobs : List SyncJob)
    → IsIn job (scoped_query account jobs)
    → IsIn job jobs
scoped-sub none job jobs i = i
scoped-sub (some a) job jobs i = (IsIn-select _ job jobs i).0

-- A scope keeps a row wherever the row stands.
scoped_again :
    (account : Option ℕ) (job : SyncJob) (jobs kept : List SyncJob)
    → IsIn job (scoped_query account jobs)
    → IsIn job kept
    → IsIn job (scoped_query account kept)
scoped_again none job jobs kept i j = j
scoped_again (some a) job jobs kept i j = select-IsIn _ job kept j (IsIn-select _ job jobs i).1

scoped_tenant :
    (account : Option ℕ) (job k : SyncJob) (jobs : List SyncJob)
    → IsIn job (scoped_query account jobs)
    → IsIn k jobs
    → same_id k.portal_account_id job.portal_account_id ≡ true
    → IsIn k (scoped_query account jobs)
scoped_tenant none job k jobs i j h = j
scoped_tenant (some a) job k jobs i j h =
    select-IsIn _ k jobs j
      (ground (arith, (IsIn-select (λ z. same_id z.portal_account_id (some a)) job jobs i).1))

-- The rows of a scope after the sweep were rows of the scope before it.
module _ (retention_days : ℕ) (now : Option ℕ) (clock : ℕ) (account : Option ℕ) (db : Db) where
  scoped-of-purged :
      (job : SyncJob)
      → IsIn job (scoped_query account (purge_old_jobs retention_days now clock db).0.jobs)
      → IsIn job (scoped_query account db.jobs)
  scoped-of-purged job i =
      let swept : List SyncJob = (purge_old_jobs retention_days now clock db).0.jobs in
      scoped_again account job swept db.jobs i
        (purged-sub retention_days now clock db job (scoped-sub account job swept i))

module _ (retention_days : ℕ) (now : Option ℕ) (clock : ℕ) (account : Option ℕ) (db : Db)
    (keyed : JobsKeyed db.jobs) where
  -- With distinct ids, the latest job of a tenant, or of all tenants, is the same before and
  -- after the sweep: the status payload and the enqueue cooldown read the row that they would
  -- have read.
  pub get_latest_job-purge :
      get_latest_job account (purge_old_jobs retention_days now clock db).0
      ≡ get_latest_job account db
  unfolding get_latest_job
  get_latest_job-purge =
      let swept : List SyncJob = (purge_old_jobs retention_days now clock db).0.jobs in
      first-same job_newer job_newer-IsOrder (scoped_query account db.jobs)
        (scoped_query account swept)
        (λ y i. scoped-of-purged retention_days now clock account db y i)
        (λ x e.
          let (i, newest) =
            first-order_by job_newer job_newer-IsOrder x (scoped_query account db.jobs) e in
          let j = scoped-sub account x db.jobs i in
          scoped_again account x db.jobs swept i (
            purge_keeps_latest retention_days now clock db x j
              (λ k m same. ground (arith, newest k (scoped_tenant account x k db.jobs i m same)))))
        (λ x y i j a b.
          keyed y x (scoped-sub account y db.jobs j) (scoped-sub account x db.jobs i)
            (ground arith))

  -- With distinct ids, the job that the queue reports as current is the same before and after
  -- the sweep.
  pub get_active_job-purge :
      get_active_job account (purge_old_jobs retention_days now clock db).0
      ≡ get_active_job account db
  unfolding get_active_job
  get_active_job-purge =
      let swept : List SyncJob = (purge_old_jobs retention_days now clock db).0.jobs in
      let live = λ (job : SyncJob). is_active job.status in
      let all_live : List SyncJob = select live (scoped_query account db.jobs) in
      first-same active_before active_before-IsOrder all_live
        (select live (scoped_query account swept))
        (λ y i.
          let (j, h) = IsIn-select live y (scoped_query account swept) i in
          select-IsIn live y (scoped_query account db.jobs)
            (scoped-of-purged retention_days now clock account db y j) h)
        (λ x e.
          let (i, h) =
            IsIn-select live x (scoped_query account db.jobs)
              (first-order_by active_before active_before-IsOrder x all_live e).0 in
          select-IsIn live x (scoped_query account swept)
            (scoped_again account x db.jobs swept i (
              purge_keeps_active retention_days now clock db x keyed
                (scoped-sub account x db.jobs i) h))
            h)
        (λ x y i j a b.
          keyed y x
            (scoped-sub account y db.jobs (IsIn-select live y (scoped_query account db.jobs) j).0)
            (scoped-sub account x db.jobs (IsIn-select live x (scoped_query account db.jobs) i).0)
            (ground arith))
