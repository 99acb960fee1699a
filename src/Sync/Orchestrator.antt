-- ===== src/Sync/Orchestrator.antt =====
-- sync_orchestrator.py: one synchronisation under the global advisory lock.
--
-- The calls that can raise (the database, the file system, the pipeline) are answered by an `Env`;
-- a call that raises has written no table, but the test of the lock may have taken the lock before
-- it raised. The two connections that the function checks out are flags of the `World`, which a
-- close that raises leaves set, and the advisory lock is the number of the session that holds it.
pub mod Run
pub mod Release
pub mod Runs
pub mod Outcome
pub mod Gate
use yclients_project.Prelude.{
  ℕ, Bool, true, false, not, ◌||◌, Option, none, some, List, [], ◌∷◌, ◌==◌, if◌then◌else◌, is_some,
  or_else,
}
use yclients_project.Prelude.Text.{Text, codes, strip, lower, or_text}
use yclients_project.Sync.Tables.{Db, SyncRun, RunStatus, StepResult}
use yclients_project.Sync.Parsing.{DateTimeText}
use yclients_project.Sync.Control.{
  StatusPayload, get_status_payload, cleanup_stale_runs, create_run, finish_run,
}
use yclients_project.Sync.Progress.{ℤ, pos, EventInput, record_event, update_progress}

pub record World : Type 0 where
  pub db : Db
  pub lock : Option ℕ
  pub lock_conn_open : Bool
  pub control_open : Bool

-- What a call that can raise gives: a value, or the text of the exception.
pub data Attempt (A : Type 0) : Type 0 where
  returned : A → Attempt A
  raised : Text → Attempt A

-- The keys that `_record_progress` reads of a progress event.
pub record ProgressEvent : Type 0 where
  pub stage_key : Option Text
  pub key : Option Text
  pub current_stage : Option Text
  pub status : Option Text
  pub portal_account_id : Option (Option ℕ)
  pub credential_id : Option (Option ℕ)
  pub company_id : Option ℕ
  pub elapsed_seconds : Option ℕ
  pub message : Option Text
  pub payload : Text
  pub progress_pct : Option ℤ
  pub step_results : Option (List StepResult)

-- What the code reads of `execute_sync`'s dictionary.
pub record SyncResult : Type 0 where
  pub success : Bool
  pub step_results : List StepResult
  pub summary : Text

-- The answers of the world to one run: `none` for a call that does not raise. `sync_events` are
-- the progress events that the pipeline recorded before it returned or raised. `acquire_takes`
-- says whether a test of the lock that raises had taken a free lock by then.
pub record Env : Type 0 where
  pub connect_raises : Option Text
  pub acquire_raises : Option Text
  pub acquire_takes : Bool
  pub status_raises : Option Text
  pub log_path : Attempt Text
  pub cleanup_raises : Option Text
  pub create_raises : Option Text
  pub start_event_raises : Option Text
  pub sync_events : List ProgressEvent
  pub sync : Attempt SyncResult
  pub done_event_raises : Option Text
  pub finish_raises : Option Text
  pub second_finish_raises : Option Text
  pub fail_event_raises : Option Text
  pub release_raises : Option Text
  pub lock_close_raises : Option Text
  pub control_close_raises : Option Text

pub record Args : Type 0 where
  pub mode : Option Text
  pub trigger_type : Option Text
  pub initiator : Text
  pub job_id : Option ℕ
  pub portal_account_id : Option ℕ
  pub credential_id : Option ℕ
  pub company_ids : List ℕ

pub data SyncStatus : Type 0 where
  already_running success failed : SyncStatus

-- The dictionary that the function returns. `error` is there after a failure only, and
-- `sync_result` once the pipeline has returned.
pub record JobResult : Type 0 where
  pub started : Bool
  pub status : SyncStatus
  pub detail : Option StatusPayload
  pub run_id : Option ℕ
  pub sync_result : Option SyncResult
  pub error : Option Text

abbrev pub normalize_or : Text → Option Text → Text
normalize_or default none = default
normalize_or default (some []) = default
normalize_or default (some (c ∷ s)) = lower (strip (c ∷ s))

abbrev pub is_truthy_id : Option ℕ → Bool
is_truthy_id none = false
is_truthy_id (some n) = not (n == 0)

abbrev pub is_nonempty : List ℕ → Bool
is_nonempty [] = false
is_nonempty (x ∷ xs) = true

abbrev pub is_scoped : Args → Bool
is_scoped args =
    is_truthy_id args.portal_account_id
    || is_truthy_id args.credential_id
    || is_nonempty args.company_ids

-- `event.get(key, default)`
abbrev pub get_id : Option (Option ℕ) → Option ℕ → Option ℕ
get_id none default = default
get_id (some value) default = value

abbrev pub text_or : Option Text → Text → Text
text_or none default = default
text_or (some []) default = default
text_or (some (c ∷ s)) default = c ∷ s

unfoldable pub record_progress : ℕ → Args → ProgressEvent → Db → Db
record_progress clock args event db =
    let stage_key = or_text event.stage_key (or_text event.key event.current_stage) in
    let logged =
      record_event clock args.job_id
        (record {
          portal_account_id = get_id event.portal_account_id args.portal_account_id;
          credential_id = get_id event.credential_id args.credential_id;
          company_id = event.company_id;
          stage_key = stage_key;
          status = text_or event.status (codes "info");
          elapsed_seconds = event.elapsed_seconds;
          message = event.message;
          payload = event.payload;
        })
        db in
    update_progress args.job_id event.progress_pct stage_key event.step_results logged

unfoldable pub record_all : ℕ → Args → List ProgressEvent → Db → Db
record_all clock args [] db = db
record_all clock args (event ∷ events) db =
    record_all clock args events (record_progress clock args event db)

abbrev pub stage_event : Text → Text → ℕ → Text → Option (List StepResult) → ProgressEvent
stage_event status stage pct message steps = record {
  stage_key = none;
  key = none;
  current_stage = some stage;
  status = some status;
  portal_account_id = none;
  credential_id = none;
  company_id = none;
  elapsed_seconds = none;
  message = some message;
  payload = codes "{}";
  progress_pct = some (pos pct);
  step_results = steps;
}
