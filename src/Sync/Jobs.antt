-- ===== src/Sync/Jobs.antt =====
-- sync_jobs.py: the queue of synchronisation jobs, as functions on the committed database.
pub mod Queue
pub mod Purge
pub mod Retained
pub mod Reap
pub mod Fifo
pub mod Waiting
pub mod Refinement
use yclients_project.Prelude.{
  is_empty, distinct, ℕ, ◌+◌, ◌≡◌, Bool, true, false, not, ◌&&◌, ◌||◌, Option, none, some, List, [],
  ◌∷◌, map, ◌++◌, arith, ltb, leb, ◌==◌, if◌then◌else◌, length, elem, any, all, take, min, max,
  or_else, same_id, is_some,
}
use yclients_project.Prelude.Rows.{select, delete_where, update_where, order_by, first}
use yclients_project.Prelude.Text.{Text, codes, strip, lower, or_text}
use yclients_project.Sync.Tables.{
  Db, SyncJob, SyncJobEvent, StepResult, JobStatus, queued, running, success, failed, other,
  status_text, is_queued, is_running, is_success, days, minutes, is_older,
}
use yclients_project.Sync.Parsing.{DateTimeText}
use yclients_project.Sync.State.{run_if_due, now_or}

abbrev pub job_retention_key : Text
job_retention_key = codes "last_job_retention_at"

-- ACTIVE_JOB_STATUSES
abbrev pub is_active : JobStatus → Bool
is_active status = is_running status || is_queued status

unfoldable pub normalize_company_ids : Option (List ℕ) → List ℕ
normalize_company_ids none = []
normalize_company_ids (some ids) = distinct [] ids

-- `(mode or 'incremental').strip().lower()`
unfoldable pub normalize_mode : Option Text → Text
normalize_mode none = codes "incremental"
normalize_mode (some []) = codes "incremental"
normalize_mode (some (c ∷ s)) = lower (strip (c ∷ s))

abbrev pub new_queued_job :
    ℕ → ℕ → Option Text → Text → Option ℕ → Option ℕ → Option (List ℕ) → SyncJob
new_queued_job id clock mode initiator portal_account_id credential_id company_ids = record {
  id = id;
  mode = normalize_mode mode;
  initiator = initiator;
  status = queued;
  portal_account_id = portal_account_id;
  credential_id = credential_id;
  company_ids = normalize_company_ids company_ids;
  progress_pct = 0;
  current_stage = codes "queued";
  step_results = [];
  requested_at = clock;
  started_at = none;
  finished_at = none;
  run_id = none;
  error_message = none;
}

unfoldable pub enqueue_job :
    ℕ → Option Text → Text → Option ℕ → Option ℕ → Option (List ℕ) → Db → Db × SyncJob
enqueue_job clock mode initiator portal_account_id credential_id company_ids db =
    let job =
      new_queued_job db.next_job_id clock mode initiator portal_account_id credential_id
        company_ids in
    (record db { jobs = db.jobs ++ job ∷ []; next_job_id = db.next_job_id + 1 }, job)

-- ORDER BY id ASC and ORDER BY id DESC
abbrev pub job_older : SyncJob → SyncJob → Bool
job_older a b = leb a.id b.id

abbrev pub job_newer : SyncJob → SyncJob → Bool
job_newer a b = leb b.id a.id

-- A write through the session to the row of one job.
abbrev pub write_job : ℕ → (SyncJob → SyncJob) → Db → Db
write_job id f db = record db { jobs = update_where (λ job. job.id == id) f db.jobs }

abbrev pub claimed : ℕ → SyncJob → SyncJob
claimed clock job = record job {
  status = running;
  started_at = some clock;
  finished_at = none;
  error_message = none;
  current_stage = codes "running";
}

unfoldable pub next_queued : Db → Option SyncJob
next_queued db = first (order_by job_older (select (λ job. is_queued job.status) db.jobs))

unfoldable pub claim_next_job : ℕ → Db → Db × Option SyncJob
claim_next_job clock db = elim (next_queued db) [
  | none ↦ (db, none)
  | some job ↦ (write_job job.id (claimed clock) db, some (claimed clock job))
]

abbrev pub released : SyncJob → SyncJob
released job = record job {
  status = queued;
  started_at = none;
  finished_at = none;
  run_id = none;
  error_message = none;
  progress_pct = 0;
  current_stage = codes "queued";
}

unfoldable pub release_job_to_queue : ℕ → Db → Db
release_job_to_queue id db = write_job id released db

-- The keys of a result dictionary that the queue reads; `sync_result` is its list of step results.
pub record Result : Type 0 where
  pub run_id : Option ℕ
  pub status : Option JobStatus
  pub sync_result : Option (List StepResult)
  pub error : Option Text
  pub detail : Option Text

abbrev pub status_or_failed : Option JobStatus → JobStatus
status_or_failed none = failed
status_or_failed (some status) = status

abbrev pub text_of_status : Option JobStatus → Option Text
text_of_status none = none
text_of_status (some status) = some (status_text status)

abbrev pub steps_or : Option (List StepResult) → List StepResult → List StepResult
steps_or none old = old
steps_or (some steps) old = steps

abbrev pub finished : ℕ → Result → SyncJob → SyncJob
finished clock result job =
    let status = status_or_failed result.status in
    record job {
      run_id = result.run_id;
      finished_at = some clock;
      status = status;
      progress_pct = if is_success status then 100 else job.progress_pct;
      current_stage = status_text status;
      step_results = steps_or result.sync_result job.step_results;
      error_message =
          if is_success status
          then none
          else or_text result.error (or_text result.detail (text_of_status result.status));
    }

unfoldable pub finish_job : ℕ → ℕ → Result → Db → Db
finish_job clock id result db = write_job id (finished clock result) db

unfoldable pub has_running_job : Db → Bool
has_running_job db = any (λ job. is_running job.status) db.jobs

abbrev pub get_or : Option ℕ → ℕ → ℕ
get_or none t = t
get_or (some s) t = s

abbrev pub is_stale_job : ℕ → ℕ → SyncJob → Bool
is_stale_job max_running_minutes now job =
    is_running job.status
    && is_older (get_or job.started_at job.requested_at) (minutes max_running_minutes) now

abbrev pub reaped : ℕ → SyncJob → SyncJob
reaped now job = record job {
  status = failed;
  finished_at = some now;
  current_stage = codes "failed";
  error_message = some (codes "Reaped stale running job (worker likely died mid-sync)");
}

-- `max_running_minutes <= 0` disables the sweep; a negative setting is a 0 here.
unfoldable pub reap_stale_jobs : ℕ → Option ℕ → ℕ → Db → Db × ℕ
reap_stale_jobs max_running_minutes now clock db =
    let moment = now_or now clock in
    let stale = is_stale_job max_running_minutes moment in
    if leb max_running_minutes 0 then (db, 0) else (
      record db { jobs = update_where stale (reaped moment) db.jobs },
      length (select stale db.jobs),
    )

-- `SELECT max(id) … GROUP BY portal_account_id`
abbrev pub is_latest_of_tenant : List SyncJob → SyncJob → Bool
is_latest_of_tenant jobs job =
    all (λ k. not (same_id k.portal_account_id job.portal_account_id) || leb k.id job.id) jobs

unfoldable pub latest_job_ids : List SyncJob → List ℕ
latest_job_ids jobs = map (λ job. job.id) (select (is_latest_of_tenant jobs) jobs)

-- coalesce(finished_at, started_at, requested_at)
abbrev pub last_activity : SyncJob → ℕ
last_activity job = get_or (or_else job.finished_at job.started_at) job.requested_at

abbrev pub is_purgeable : ℕ → ℕ → List ℕ → SyncJob → Bool
is_purgeable retention_days now keep job =
    not (is_active job.status)
    && is_older (last_activity job) (days retention_days) now
    && not (elem job.id keep)

unfoldable pub stale_job_ids : ℕ → ℕ → List SyncJob → List ℕ
stale_job_ids retention_days now jobs =
    map (λ job. job.id) (select (is_purgeable retention_days now (latest_job_ids jobs)) jobs)

unfoldable pub purge_old_jobs : ℕ → Option ℕ → ℕ → Db → Db × ℕ
purge_old_jobs retention_days now clock db =
    if leb retention_days 0
    then (db, 0)
    else (let ids = stale_job_ids retention_days (now_or now clock) db.jobs in
        (
          record db {
            events = delete_where (λ event. elem event.job_id ids) db.events;
            jobs = delete_where (λ job. elem job.id ids) db.jobs;
          },
          length (select (λ job. elem job.id ids) db.jobs),
        ))

module _ (py : DateTimeText) where
  unfoldable pub purge_old_jobs_if_due : ℕ → ℕ → Option ℕ → ℕ → Db → Db × Option ℕ
  purge_old_jobs_if_due retention_days interval_hours now clock db =
      run_if_due py job_retention_key interval_hours now clock
        (λ moment. purge_old_jobs retention_days (some moment) clock) db

abbrev pub scoped_query : Option ℕ → List SyncJob → List SyncJob
scoped_query none jobs = jobs
scoped_query (some account) jobs = select (λ job. same_id job.portal_account_id (some account)) jobs

-- ORDER BY status DESC, id ASC: among the active statuses 'running' stands after 'queued'.
abbrev pub active_before : SyncJob → SyncJob → Bool
active_before a b =
    if is_running a.status
    then not (is_running b.status) || leb a.id b.id
    else not (is_running b.status) && leb a.id b.id

unfoldable pub get_active_job : Option ℕ → Db → Option SyncJob
get_active_job account db =
    first
      (order_by active_before (select (λ job. is_active job.status) (scoped_query account db.jobs)))

unfoldable pub get_latest_job : Option ℕ → Db → Option SyncJob
get_latest_job account db = first (order_by job_newer (scoped_query account db.jobs))
