-- ===== src/Sync/Jobs/Purge.antt =====
-- sync_jobs.py: which jobs `purge_old_jobs` deletes.
use yclients_project.Prelude.{
  ℕ, ◌+◌, ◌≤◌, ◌<◌, ◌⊎◌, ◌≡◌, sym, ap, ◌∙◌, true, false, not, Option, some, List, arith, Bool-cases,
  inl, inr, IsIn, leb, same_id, elem, elem→IsIn, IsIn→elem, IsIn-map, map-IsIn, all-intro,
}
use yclients_project.Prelude.Rows.{select, delete_where, IsIn-select, select-IsIn}
use yclients_project.Sync.Tables.{Db, SyncJob, days}
use yclients_project.Sync.State.{now_or}
use yclients_project.Sync.Jobs.{
  is_active, is_latest_of_tenant, latest_job_ids, is_purgeable, stale_job_ids, purge_old_jobs,
  last_activity,
}
use yclients_project.Sync.Jobs.Queue.{JobsKeyed}

module _ (retention_days now : ℕ) (jobs : List SyncJob) where
  -- A purged id is the id of a row that is neither active nor kept as its tenant's latest.
  stale_id :
      (id : ℕ)
      → elem id (stale_job_ids retention_days now jobs) ≡ true
      → (job : SyncJob) × IsIn job jobs
        × (job.id ≡ id)
        × (is_purgeable retention_days now (latest_job_ids jobs) job ≡ true)
  unfolding stale_job_ids
  stale_id id h =
      let purgeable = is_purgeable retention_days now (latest_job_ids jobs) in
      let (job, i, e) = IsIn-map (λ j. j.id) id (select purgeable jobs) (elem→IsIn id _ h) in
      let (j, p) = IsIn-select purgeable job jobs i in (job, j, e, p)

  pub active_not_stale :
      (job : SyncJob)
      → JobsKeyed jobs
      → IsIn job jobs
      → is_active job.status ≡ true
      → elem job.id (stale_job_ids retention_days now jobs) ≡ false
  active_not_stale job keyed i h =
      elim (Bool-cases (elem job.id (stale_job_ids retention_days now jobs))) [
        | inl e ↦
            (let (k, j, same, p) = stale_id job.id e in
              let q = keyed k job j i same in
              ground (arith, ap (λ (z : SyncJob). is_active z.status) q))
        | inr e ↦ e
      ]

  latest_kept :
      (job : SyncJob)
      → IsIn job jobs
      → ((k : SyncJob)
          → IsIn k jobs
          → same_id k.portal_account_id job.portal_account_id ≡ true
          → k.id ≤ job.id)
      → elem job.id (latest_job_ids jobs) ≡ true
  unfolding latest_job_ids
  latest_kept job i latest = IsIn→elem job.id _ (
      map-IsIn (λ j. j.id) job (select (is_latest_of_tenant jobs) jobs)
        (select-IsIn (is_latest_of_tenant jobs) job jobs i
          (all-intro _ jobs (λ k j. ground (arith, latest k j)))))

  pub latest_not_stale :
      (job : SyncJob)
      → IsIn job jobs
      → ((k : SyncJob)
          → IsIn k jobs
          → same_id k.portal_account_id job.portal_account_id ≡ true
          → k.id ≤ job.id)
      → elem job.id (stale_job_ids retention_days now jobs) ≡ false
  latest_not_stale job i latest =
      elim (Bool-cases (elem job.id (stale_job_ids retention_days now jobs))) [
        | inl e ↦
            (let (k, j, same, p) = stale_id job.id e in
              ground (arith, latest_kept job i latest, ap (λ z. elem z (latest_job_ids jobs)) same))
        | inr e ↦ e
      ]

  -- A row that is not deleted by the sweep's ids survives in the table.
  pub purged_IsIn :
      (job : SyncJob)
      → IsIn job jobs
      → elem job.id (stale_job_ids retention_days now jobs) ≡ false
      → IsIn job (delete_where (λ k. elem k.id (stale_job_ids retention_days now jobs)) jobs)
  purged_IsIn job i h =
      select-IsIn (λ k. not (elem k.id (stale_job_ids retention_days now jobs))) job jobs i (rw h)

purgeable_old :
    (retention_days now : ℕ) (jobs : List SyncJob) (job : SyncJob)
    → JobsKeyed jobs
    → IsIn job jobs
    → elem job.id (stale_job_ids retention_days now jobs) ≡ true
    → (is_active job.status ≡ false) × (last_activity job + days retention_days < now)
purgeable_old retention_days now jobs job keyed i gone =
    let (k, j, same, p) = stale_id retention_days now jobs job.id gone in
    let q =
      ap (is_purgeable retention_days now (latest_job_ids jobs)) (sym (keyed k job j i same)) ∙ p in
    ground arith

-- With distinct ids, the sweep leaves every job that is queued or running in place, however old
-- it is.
pub purge_keeps_active :
    (retention_days : ℕ) (now : Option ℕ) (clock : ℕ) (db : Db) (job : SyncJob)
    → JobsKeyed db.jobs
    → IsIn job db.jobs
    → is_active job.status ≡ true
    → IsIn job (purge_old_jobs retention_days now clock db).0.jobs
unfolding purge_old_jobs
purge_keeps_active retention_days now clock db job keyed i h =
    elim (Bool-cases (leb retention_days 0)) [
      | inl e ↦ rw e i
      | inr e ↦ rw e (
          purged_IsIn retention_days (now_or now clock) db.jobs job i
            (active_not_stale retention_days (now_or now clock) db.jobs job keyed i h))
    ]

-- A row of the swept table stood in the table before.
pub purged-sub :
    (retention_days : ℕ) (now : Option ℕ) (clock : ℕ) (db : Db) (job : SyncJob)
    → IsIn job (purge_old_jobs retention_days now clock db).0.jobs
    → IsIn job db.jobs
unfolding purge_old_jobs
purged-sub retention_days now clock db job i = elim (Bool-cases (leb retention_days 0)) [
  | inl e ↦ rw e at i
  | inr e ↦ (IsIn-select _ job db.jobs (rw e at i)).0
]

pub purge_keeps_latest :
    (retention_days : ℕ) (now : Option ℕ) (clock : ℕ) (db : Db) (job : SyncJob)
    → IsIn job db.jobs
    → ((k : SyncJob)
        → IsIn k db.jobs
        → same_id k.portal_account_id job.portal_account_id ≡ true
        → k.id ≤ job.id)
    → IsIn job (purge_old_jobs retention_days now clock db).0.jobs
unfolding purge_old_jobs
purge_keeps_latest retention_days now clock db job i latest =
    elim (Bool-cases (leb retention_days 0)) [
      | inl e ↦ rw e i
      | inr e ↦ rw e (
          purged_IsIn retention_days (now_or now clock) db.jobs job i
            (latest_not_stale retention_days (now_or now clock) db.jobs job i latest))
    ]

-- With distinct ids, a job that the sweep deletes is not active, and its last activity is older
-- than the retention.
pub purge_deletes_old :
    (retention_days now clock : ℕ) (db : Db) (job : SyncJob)
    → JobsKeyed db.jobs
    → IsIn job db.jobs
    → IsIn job (purge_old_jobs retention_days (some now) clock db).0.jobs
      ⊎ ((is_active job.status ≡ false) × (last_activity job + days retention_days < now))
unfolding purge_old_jobs
purge_deletes_old retention_days now clock db job keyed i =
    elim (Bool-cases (leb retention_days 0)) [
      | inl e ↦ inl (rw e i)
      | inr e ↦ elim (Bool-cases (elem job.id (stale_job_ids retention_days now db.jobs))) [
        | inr kept ↦ inl (rw e (purged_IsIn retention_days now db.jobs job i kept))
        | inl gone ↦ inr (purgeable_old retention_days now db.jobs job keyed i gone)
      ]
    ]
