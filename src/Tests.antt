-- ===== src/Tests.antt =====
-- Concrete rows and settings, and the theorems at concrete inputs.
pub mod Queue
pub mod Runs
pub mod Access
pub mod Sessions
pub mod Yclients
pub mod Deps
pub mod Fifo
pub mod Ownership
pub mod Staff
use yclients_project.Prelude.{
  ℕ, zero, suc, ◌≡◌, refl, ap, not, Bool, true, false, Option, none, some, List, [], ◌∷◌, arith,
  all, length,
}
use yclients_project.Prelude.Text.{Text, codes, has_char, is_space}
use yclients_project.Sync.Tables.{Db, SyncJob, JobStatus, SyncRun, RunStatus, Credential}
use yclients_project.Sync.Parsing.{DateTimeText, DateTime, naive, aware}
use yclients_project.Sync.Jobs.Queue.{JobsKeyed}
use yclients_project.Sync.Integrity.Steps.{empty}
use yclients_project.Sync.Orchestrator.{World, Env, SyncResult, returned}
use yclients_project.Sync.Worker.{Failures}

abbrev pub ones : ℕ → Text
ones zero = []
ones (suc n) = 49 ∷ ones n

pub ones_no_space : (n : ℕ) → all (λ c. not (is_space c)) (ones n) ≡ true
unfolding is_space
ones_no_space zero = refl
ones_no_space (suc n) = ones_no_space n

pub ones_no_zone : (n : ℕ) → has_char 90 (ones n) ≡ false
ones_no_zone zero = refl
ones_no_zone (suc n) = ones_no_zone n

pub length-ones : (n : ℕ) → length (ones n) ≡ n
length-ones zero = refl
length-ones (suc n) = ap suc (length-ones n)

abbrev pub print : DateTime → Text
print (naive t) = 84 ∷ ones t
print (aware t) = 43 ∷ ones t

abbrev pub read : Text → Option DateTime
read [] = none
read (c ∷ s) = some (naive (length s))

-- A reader and a printer of moments: a `T` and as many digits as there are microseconds.
abbrev pub unary : DateTimeText
unfolding is_space
unary = record {
  isoformat = print;
  date_isoformat = ones;
  fromisoformat = read;
  date_fromisoformat = λ s. none;
  isoformat_no_space = ones_no_space;
  isoformat_no_zone = ones_no_zone;
  isoformat_has_mark = λ t. refl;
  fromisoformat-isoformat = λ t. ap (λ n. some (naive n)) (length-ones t);
}

abbrev pub waiting : SyncJob
waiting = record {
  id = 2;
  mode = codes "incremental";
  initiator = codes "owner";
  status = JobStatus.queued;
  portal_account_id = some 7;
  credential_id = none;
  company_ids = [];
  progress_pct = 0;
  current_stage = codes "queued";
  step_results = [];
  requested_at = 5;
  started_at = none;
  finished_at = none;
  run_id = none;
  error_message = none;
}

abbrev pub stuck : SyncJob
stuck = record waiting { id = 1; status = JobStatus.running; started_at = some 6 }

abbrev pub done : SyncJob
done = record waiting {
  id = 3;
  status = JobStatus.success;
  portal_account_id = some 8;
  finished_at = some 9;
}

abbrev pub finished_run : SyncRun
finished_run = record {
  id = 1;
  trigger_type = codes "manual";
  mode = codes "full";
  status = RunStatus.success;
  initiator = codes "owner";
  started_at = 1;
  finished_at = some 2;
  log_path = codes "log";
  message = none;
}

abbrev pub older_run : SyncRun
older_run = record finished_run { id = 0; status = RunStatus.failed }

abbrev pub orphan : SyncRun
orphan = record finished_run { id = 2; status = RunStatus.running; finished_at = none }

abbrev pub tenant : Credential
tenant = record { portal_account_id = some 7; is_active = true }

abbrev pub filled : Db
filled = record empty {
  jobs = stuck ∷ waiting ∷ done ∷ [];
  runs = older_run ∷ finished_run ∷ [];
  credentials = tenant ∷ [];
  next_job_id = 4;
  next_run_id = 3;
}

abbrev pub idle : World
idle = record { db = filled; lock = none; lock_conn_open = false; control_open = false }

abbrev pub succeeded : SyncResult
succeeded = record { success = true; step_results = []; summary = codes "ok" }

-- Nothing raises.
abbrev pub quiet : Env
quiet = record {
  connect_raises = none;
  acquire_raises = none;
  acquire_takes = false;
  status_raises = none;
  log_path = returned (codes "log");
  cleanup_raises = none;
  create_raises = none;
  start_event_raises = none;
  sync_events = [];
  sync = returned succeeded;
  done_event_raises = none;
  finish_raises = none;
  second_finish_raises = none;
  fail_event_raises = none;
  release_raises = none;
  lock_close_raises = none;
  control_close_raises = none;
}

abbrev pub no_failures : Failures
no_failures = record {
  lookup_raises = none;
  claim_raises = none;
  release_raises = none;
  finish_raises = none;
  second_finish_raises = none;
  aborted_session = codes "pending rollback";
}
