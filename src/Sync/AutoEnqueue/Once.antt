-- ===== src/Sync/AutoEnqueue/Once.antt =====
-- sync_worker.py: what a whole call of `enqueue_auto_sync_jobs_if_due` leaves behind.
use yclients_project.Prelude.{
  distinct, distinct-IsIn, ℕ, ◌+◌, ◌<◌, ◌≡◌, ◌⊎◌, refl, ap, ◌∙◌, true, Option, none, some, List, [],
  ◌∷◌, arith, if◌then◌else◌, Bool-cases, Option-cases, inl, inr, IsIn, same_id,
}
use yclients_project.Prelude.Rows.{select, order_by, first, first-order_by, IsIn-select}
use yclients_project.Sync.Tables.{Db, SyncJob, Credential, minutes}
use yclients_project.Sync.Parsing.{DateTimeText}
use yclients_project.Sync.Jobs.{
  enqueue_job, is_active, scoped_query, get_active_job, get_latest_job, active_before, job_newer,
}
use yclients_project.Sync.Jobs.Queue.{active_before-IsOrder, job_newer-IsOrder}
use yclients_project.Sync.AutoEnqueue.{
  Config, AutoResult, ok, is_recent, job_activity_at, active_accounts, portal_account_ids,
  is_skipped, auto_job, enqueue_tenants, enqueue_auto_sync_jobs_if_due,
}
use yclients_project.Sync.AutoEnqueue.Tenants.{enqueue_tenants_all, enqueue_tenants_idle}

-- The tenant has a queued or running job, or a job with activity inside the interval.
abbrev pub IsServed : ℕ → ℕ → ℕ → Db → Type 0
IsServed interval now account db =
    (job : SyncJob) × IsIn job db.jobs
    × (job.portal_account_id ≡ some account)
    × ((is_active job.status ≡ true) ⊎ (now < job_activity_at job + minutes interval))

same_id-some : (o : Option ℕ) (a : ℕ) → same_id o (some a) ≡ true → o ≡ some a
same_id-some o a h = ground arith

scoped-tenant :
    (account : ℕ) (job : SyncJob) (db : Db)
    → IsIn job (scoped_query (some account) db.jobs)
    → IsIn job db.jobs × (job.portal_account_id ≡ some account)
scoped-tenant account job db i =
    let (j, h) = IsIn-select (λ z. same_id z.portal_account_id (some account)) job db.jobs i in
    (j, same_id-some job.portal_account_id account h)

skipped-IsServed :
    (interval now account : ℕ) (db : Db)
    → is_skipped interval now account db ≡ true
    → IsServed interval now account db
unfolding is_skipped get_active_job get_latest_job
skipped-IsServed interval now account db h =
    let mine : List SyncJob = scoped_query (some account) db.jobs in
    elim (Option-cases (first (order_by active_before (select (λ z. is_active z.status) mine)))) [
      | inr (job, e) ↦
          (let (i, live) =
              IsIn-select (λ z. is_active z.status) job mine
                (first-order_by active_before active_before-IsOrder job _ e).0 in
            let (j, t) = scoped-tenant account job db i in (job, j, t, inl live))
      | inl a ↦ elim (Option-cases (first (order_by job_newer mine))) [
        | inl e ↦ cc (rw (a, e) at h)
        | inr (job, e) ↦
            (let (j, t) =
                scoped-tenant account job db
                  (first-order_by job_newer job_newer-IsOrder job mine e).0 in
              let recent : is_recent interval now (job_activity_at job) ≡ true = rw (a, e) at h in
              (job, j, t, inr (ground arith)))
      ]
    ]

active_accounts-IsIn :
    (a : ℕ) (c : Credential) (cs : List Credential)
    → IsIn c cs
    → c.is_active ≡ true
    → c.portal_account_id ≡ some a
    → IsIn a (active_accounts cs)
unfolding active_accounts
active_accounts-IsIn a c [] i live e = absurd i
active_accounts-IsIn a c (d ∷ ds) (inl q) live e =
    let live' : d.is_active ≡ true = ap (λ z. z.is_active) q ∙ live in
    let e' : d.portal_account_id ≡ some a = ap (λ z. z.portal_account_id) q ∙ e in ground arith
active_accounts-IsIn a c (d ∷ ds) (inr i) live e =
    ground (arith, active_accounts-IsIn a c ds i live e)

-- The loop writes to the jobs table and to its sequence only.
enqueue_tenants_frame :
    (interval now clock : ℕ) (accounts : List ℕ) (n m : ℕ) (db : Db)
    → let after = (enqueue_tenants interval now clock accounts n m db).0 in
      (after.runs ≡ db.runs) × (after.states ≡ db.states) × (after.credentials ≡ db.credentials)
unfolding enqueue_tenants
enqueue_tenants_frame interval now clock [] n m db = (refl, refl, refl)
enqueue_tenants_frame interval now clock (b ∷ bs) n m db =
    let (runs, states, credentials) = enqueue_tenants_frame interval now clock bs _ _ _ in
    elim (Bool-cases (is_skipped interval now b db)) [
      | inl e ↦
          ((
            runs ∙ ap (λ s. (if s then db else auto_job clock b db).runs) e,
            states ∙ ap (λ s. (if s then db else auto_job clock b db).states) e,
            credentials ∙ ap (λ s. (if s then db else auto_job clock b db).credentials) e,
          ))
      | inr e ↦ (
        runs
            ∙ ap (λ s. (if s then db else auto_job clock b db).runs) e
            ∙ (unfold enqueue_job in refl),
        states
            ∙ ap (λ s. (if s then db else auto_job clock b db).states) e
            ∙ (unfold enqueue_job in refl),
        credentials
            ∙ ap (λ s. (if s then db else auto_job clock b db).credentials) e
            ∙ (unfold enqueue_job in refl),
      )
    ]

module _ (py : DateTimeText) (config : Config) (now clock : ℕ) (db after : Db) (result : AutoResult)
    (called : enqueue_auto_sync_jobs_if_due py config (some now) clock db ≡ (after, result))
    (ran : result.status ≡ ok) (through : result.reason ≡ none) where
  looped :
      after ≡ (enqueue_tenants config.interval_minutes now clock (portal_account_ids db) 0 0 db).0
  unfolding enqueue_auto_sync_jobs_if_due
  looped = ground arith

  tenant_skipped :
      (a : ℕ)
      → IsIn a (portal_account_ids db)
      → is_skipped config.interval_minutes now a after ≡ true
  tenant_skipped a i =
      rw looped
        (enqueue_tenants_all config.interval_minutes now clock (portal_account_ids db) 0 0 db a i)

  -- When the call got as far as its loop, every tenant with an active credential has a queued or
  -- running job afterwards, or a job with activity inside the interval: none is left out.
  pub auto_enqueue_serves :
      (account : ℕ) (credential : Credential)
      → IsIn credential db.credentials
      → credential.is_active ≡ true
      → credential.portal_account_id ≡ some account
      → IsServed config.interval_minutes now account after
  unfolding portal_account_ids
  auto_enqueue_serves account c i live e =
      skipped-IsServed config.interval_minutes now account after (
        tenant_skipped account (
          distinct-IsIn account [] (active_accounts db.credentials)
            (active_accounts-IsIn account c db.credentials i live e) refl))

  same_accounts : portal_account_ids after ≡ portal_account_ids db
  unfolding portal_account_ids
  same_accounts =
      let frame =
        enqueue_tenants_frame config.interval_minutes now clock (portal_account_ids db) 0 0 db in
      ap (λ z. distinct [] (active_accounts z)) (ap (λ (d : Db). d.credentials) looped ∙ frame.2)

  -- After a call that got as far as its loop, a second call at the same moment adds no job and
  -- changes nothing.
  pub auto_enqueue_twice :
      (later : ℕ)
      → let second = enqueue_auto_sync_jobs_if_due py config (some now) later after in
        (second.0 ≡ after) × (second.1.enqueued ≡ 0)
  unfolding enqueue_auto_sync_jobs_if_due
  auto_enqueue_twice later =
      let idle =
        enqueue_tenants_idle config.interval_minutes now later (portal_account_ids after) 0 0 after
          (λ a i. tenant_skipped a (rw same_accounts at i)) in
      (ground (arith, idle), ground (arith, idle))
