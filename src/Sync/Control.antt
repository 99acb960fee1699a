-- ===== src/Sync/Control.antt =====
-- sync_control.py: the run register and its maintenance, as functions on the committed database.
-- `clock` is what `utcnow` reads in the call. A query is `select` and `order_by` over the rows.
pub mod Retention
use yclients_project.Prelude.{
  ℕ, ◌+◌, ◌≡◌, Bool, true, false, not, ◌&&◌, Option, none, some, List, [], ◌∷◌, map, ◌++◌, arith,
  ltb, leb, ◌==◌, if◌then◌else◌, length, elem,
}
use yclients_project.Prelude.Rows.{select, delete_where, update_where, order_by, first}
use yclients_project.Prelude.Text.{Text, codes}
use yclients_project.Sync.Tables.{
  Db, SyncJob, SyncRun, RunStatus, run_is_running, run_is_success, days, is_older, is_running,
}
use yclients_project.Sync.Parsing.{DateTimeText, datetime, naive}
use yclients_project.Sync.State.{set_state, run_if_due, get_state_value, now_or}

abbrev pub run_retention_key : Text
run_retention_key = codes "last_run_retention_at"

abbrev pub report_usage_retention_key : Text
report_usage_retention_key = codes "last_report_usage_retention_at"

abbrev pub unscoped_success_key : Text
unscoped_success_key = codes "last_unscoped_sync_at"

abbrev pub successful_sync_key : Text
successful_sync_key = codes "last_successful_sync_at"

-- ORDER BY id DESC
abbrev pub run_newer : SyncRun → SyncRun → Bool
run_newer a b = leb b.id a.id

unfoldable pub get_latest_run : Db → Option SyncRun
get_latest_run db = first (order_by run_newer db.runs)

unfoldable pub get_running_run : Db → Option SyncRun
get_running_run db = first (order_by run_newer (select (λ run. run_is_running run.status) db.runs))

abbrev pub abandon : ℕ → SyncRun → SyncRun
abandon clock run = record run {
  status = RunStatus.abandoned;
  finished_at = some clock;
  message = some (codes "Run marked as abandoned: its process no longer holds the sync lock");
}

unfoldable pub cleanup_stale_runs : ℕ → Db → Db × ℕ
cleanup_stale_runs clock db = (
  record db { runs = update_where (λ run. run_is_running run.status) (abandon clock) db.runs },
  length (select (λ run. run_is_running run.status) db.runs),
)

-- `stale.filter(SyncRun.id != latest_id)`, or no filter when there is no run at all.
abbrev pub is_not_latest : Option SyncRun → SyncRun → Bool
is_not_latest none run = true
is_not_latest (some latest) run = not (run.id == latest.id)

abbrev pub is_stale_run : ℕ → ℕ → Option SyncRun → SyncRun → Bool
is_stale_run retention_days now latest run =
    not (run_is_running run.status)
    && is_older run.started_at (days retention_days) now
    && is_not_latest latest run

unfoldable pub stale_run_ids : ℕ → ℕ → Db → List ℕ
unfolding get_latest_run
stale_run_ids retention_days now db =
    map (λ run. run.id) (select (is_stale_run retention_days now (get_latest_run db)) db.runs)

abbrev pub names_run : List ℕ → SyncJob → Bool
names_run ids job = elim job.run_id [ none ↦ false | some run_id ↦ elem run_id ids ]

-- The sweep's result: how many runs it deleted, and the log paths that `remove_run_logs` is given.
pub record Purged : Type 0 where
  pub deleted : ℕ
  pub log_paths : List Text

-- `retention_days <= 0` disables the sweep; a negative setting is a 0 here.
unfoldable pub purge_old_runs : ℕ → Option ℕ → ℕ → Db → Db × Purged
unfolding stale_run_ids
purge_old_runs retention_days now clock db =
    if leb retention_days 0
    then (db, record { deleted = 0; log_paths = [] })
    else (let ids = stale_run_ids retention_days (now_or now clock) db in
        let stale = select (λ run. elem run.id ids) db.runs in
        (
          record db {
            jobs = update_where (names_run ids) (λ job. record job { run_id = none }) db.jobs;
            runs = delete_where (λ run. elem run.id ids) db.runs;
          },
          record { deleted = length stale; log_paths = map (λ run. run.log_path) stale },
        ))

unfoldable pub purge_old_report_usage : ℕ → Option ℕ → ℕ → Db → Db × ℕ
purge_old_report_usage retention_days now clock db =
    if leb retention_days 0
    then (db, 0)
    else (let expired =
          λ (created_at : ℕ). is_older created_at (days retention_days) (now_or now clock) in
        (
          record db { usage_events = delete_where expired db.usage_events },
          length (select expired db.usage_events),
        ))

abbrev pub new_run : ℕ → ℕ → Text → Text → Text → Text → SyncRun
new_run id clock mode trigger_type initiator log_path = record {
  id = id;
  trigger_type = trigger_type;
  mode = mode;
  status = RunStatus.running;
  initiator = initiator;
  started_at = clock;
  finished_at = none;
  log_path = log_path;
  message = none;
}

unfoldable pub create_run : ℕ → Text → Text → Text → Text → Db → Db × SyncRun
create_run clock mode trigger_type initiator log_path db =
    let run = new_run db.next_run_id clock mode trigger_type initiator log_path in
    (record db { runs = db.runs ++ run ∷ []; next_run_id = db.next_run_id + 1 }, run)

module _ (py : DateTimeText) where
  -- `run_id` is the id of the run object that the caller holds.
  unfoldable pub finish_run : ℕ → ℕ → RunStatus → Text → Bool → Db → Db
  finish_run clock run_id status message scoped db =
      let closed : Db = record db {
        runs =
            update_where (λ run. run.id == run_id)
              (λ run. record run {
                status = status;
                finished_at = some clock;
                message = some message;
              })
              db.runs;
      } in
      let synced = set_state py successful_sync_key (datetime (naive clock)) clock closed in
      if run_is_success status
      then (if scoped
          then synced
          else set_state py unscoped_success_key (datetime (naive clock)) clock synced)
      else closed

  unfoldable pub purge_old_runs_if_due : ℕ → ℕ → Option ℕ → ℕ → Db → Db × Option Purged
  purge_old_runs_if_due retention_days interval_hours now clock db =
      run_if_due py run_retention_key interval_hours now clock
        (λ moment. purge_old_runs retention_days (some moment) clock) db

  unfoldable pub purge_old_report_usage_if_due : ℕ → ℕ → Option ℕ → ℕ → Db → Db × Option ℕ
  purge_old_report_usage_if_due retention_days interval_hours now clock db =
      run_if_due py report_usage_retention_key interval_hours now clock
        (λ moment. purge_old_report_usage retention_days (some moment) clock) db

pub record StatusPayload : Type 0 where
  pub running : Bool
  pub current_run : Option SyncRun
  pub last_run : Option SyncRun
  pub last_successful_sync_at : Option Text

abbrev pub is_present : Option SyncRun → Bool
is_present none = false
is_present (some run) = true

unfoldable pub get_status_payload : Db → StatusPayload
unfolding get_running_run get_latest_run
get_status_payload db = record {
  running = is_present (get_running_run db);
  current_run = get_running_run db;
  last_run = get_latest_run db;
  last_successful_sync_at = get_state_value successful_sync_key db.states;
}
