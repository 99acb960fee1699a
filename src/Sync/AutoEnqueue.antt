-- ===== src/Sync/AutoEnqueue.antt =====
-- sync_worker.py: the queue is topped up with one incremental job for each tenant that is due.
pub mod Tenants
pub mod Once
use yclients_project.Prelude.{
  distinct, ℕ, ◌+◌, Bool, true, false, not, ◌&&◌, ◌||◌, Option, none, some, List, [], ◌∷◌, leb, ltb,
  if◌then◌else◌, is_some, or_else,
}
use yclients_project.Prelude.Text.{Text, codes}
use yclients_project.Sync.Tables.{Db, SyncJob, Credential, minutes}
use yclients_project.Sync.Parsing.{DateTimeText}
use yclients_project.Sync.State.{now_or, last_ran_at}
use yclients_project.Sync.Control.{unscoped_success_key, get_running_run}
use yclients_project.Sync.Jobs.{enqueue_job, get_active_job, get_latest_job, get_or}

-- SYNC_AUTO_ENQUEUE_ENABLED and SYNC_AUTO_ENQUEUE_INTERVAL_MINUTES; a negative interval is a 0.
pub record Config : Type 0 where
  pub enabled : Bool
  pub interval_minutes : ℕ

pub data AutoStatus : Type 0 where
  disabled ok : AutoStatus

pub data Reason : Type 0 where
  sync_running recent_global_sync : Reason

pub record AutoResult : Type 0 where
  pub status : AutoStatus
  pub enqueued : ℕ
  pub skipped : ℕ
  pub reason : Option Reason

-- `t > now - interval`
abbrev pub is_recent : ℕ → ℕ → ℕ → Bool
is_recent interval_minutes now t = ltb now (t + minutes interval_minutes)

abbrev pub job_activity_at : SyncJob → ℕ
job_activity_at job = get_or (or_else job.finished_at job.started_at) job.requested_at

abbrev pub recent_moment : ℕ → ℕ → Option ℕ → Bool
recent_moment interval_minutes now none = false
recent_moment interval_minutes now (some t) = is_recent interval_minutes now t

abbrev pub recent_job : ℕ → ℕ → Option SyncJob → Bool
recent_job interval_minutes now none = false
recent_job interval_minutes now (some job) = is_recent interval_minutes now (job_activity_at job)

-- The accounts of the active credentials, each once; a credential with no account counts for none.
active_accounts : List Credential → List ℕ
active_accounts [] = []
active_accounts (c ∷ cs) =
    let rest = active_accounts cs in
    elim c.portal_account_id [ none ↦ rest | some a ↦ if c.is_active then a ∷ rest else rest ]

unfoldable pub portal_account_ids : Db → List ℕ
unfolding active_accounts
portal_account_ids db = distinct [] (active_accounts db.credentials)

-- The two tests of the loop that skip a tenant.
unfoldable pub is_skipped : ℕ → ℕ → ℕ → Db → Bool
is_skipped interval_minutes now account db =
    is_some (get_active_job (some account) db)
    || recent_job interval_minutes now (get_latest_job (some account) db)

abbrev pub auto_job : ℕ → ℕ → Db → Db
auto_job clock account db =
    (enqueue_job clock (some (codes "incremental")) (codes "auto-worker") (some account) none none
      db).0

unfoldable pub enqueue_tenants : ℕ → ℕ → ℕ → List ℕ → ℕ → ℕ → Db → Db × ℕ × ℕ
enqueue_tenants interval now clock [] enqueued skipped db = (db, enqueued, skipped)
enqueue_tenants interval now clock (account ∷ accounts) enqueued skipped db =
    let skip = is_skipped interval now account db in
    enqueue_tenants interval now clock accounts (if skip then enqueued else enqueued + 1)
      (if skip then skipped + 1 else skipped) (if skip then db else auto_job clock account db)

abbrev pub auto_result : AutoStatus → ℕ → ℕ → Option Reason → AutoResult
auto_result status enqueued skipped reason = record {
  status = status;
  enqueued = enqueued;
  skipped = skipped;
  reason = reason;
}

module _ (py : DateTimeText) (config : Config) where
  unfoldable pub enqueue_auto_sync_jobs_if_due : Option ℕ → ℕ → Db → Db × AutoResult
  enqueue_auto_sync_jobs_if_due now clock db =
      let moment = now_or now clock in
      let interval = config.interval_minutes in
      let (after, enqueued, skipped) =
        enqueue_tenants interval moment clock (portal_account_ids db) 0 0 db in
      if not config.enabled || leb interval 0
      then (db, auto_result disabled 0 0 none)
      else if is_some (get_running_run db)
      then (db, auto_result ok 0 1 (some sync_running))
      else if recent_moment interval moment (last_ran_at py unscoped_success_key db)
      then (db, auto_result ok 0 1 (some recent_global_sync))
      else (after, auto_result ok enqueued skipped none)
