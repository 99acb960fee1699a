-- ===== src/Sync/Orchestrator/Runs.antt =====
-- sync_control.py: which runs are still running under the writes of `run_sync_job`.
use yclients_project.Prelude.{
  ℕ, ◌≡◌, ◌⊎◌, refl, sym, ap, ◌∙◌, Bool, true, false, some, List, [], ◌∷◌, arith, if◌then◌else◌,
  ◌==◌, inl, inr, IsIn, IsIn-append,
}
use yclients_project.Prelude.Rows.{update_where, IsIn-update}
use yclients_project.Prelude.Text.{Text}
use yclients_project.Sync.Tables.{Db, SyncRun, RunStatus, run_is_running}
use yclients_project.Sync.Parsing.{DateTimeText}
use yclients_project.Sync.State.{set_state}
use yclients_project.Sync.Control.{abandon, cleanup_stale_runs, create_run, finish_run}
use yclients_project.Sync.Progress.{record_event, update_progress}
use yclients_project.Sync.Orchestrator.{
  Attempt, returned, raised, Args, ProgressEvent, record_progress, record_all,
}
use yclients_project.Sync.Orchestrator.Run.{run_status}

-- No run is running but, at most, those with this id.
abbrev pub OnlyRunning : ℕ → Db → Type 0
OnlyRunning id db =
    (run : SyncRun) → IsIn run db.runs → run_is_running run.status ≡ true → run.id ≡ id

abbrev pub NoneRunning : Db → Type 0
NoneRunning db = (run : SyncRun) → IsIn run db.runs → run_is_running run.status ≡ false

pub abandoned_row :
    (clock : ℕ) (run : SyncRun)
    → run_is_running (if run_is_running run.status then abandon clock run else run).status ≡ false
abandoned_row clock run = ground arith

pub NoneRunning-cleanup : (clock : ℕ) (db : Db) → NoneRunning (cleanup_stale_runs clock db).0
unfolding cleanup_stale_runs
NoneRunning-cleanup clock db run i =
    let (old, j, q) = IsIn-update (λ r. run_is_running r.status) (abandon clock) run db.runs i in
    ap (λ z. run_is_running z.status) (sym q) ∙ abandoned_row clock old

pub OnlyRunning-create :
    (clock : ℕ) (mode trigger initiator path : Text) (db : Db)
    → NoneRunning db
    → let (after, run) = create_run clock mode trigger initiator path db in OnlyRunning run.id after
unfolding create_run
OnlyRunning-create clock mode trigger initiator path db h run i live =
    elim (IsIn-append run db.runs _ i) [
      | inl j ↦ cc (h run j)
      | inr (inl q) ↦ sym (ap (λ (z : SyncRun). z.id) q)
      | inr (inr j) ↦ absurd j
    ]

pub runs-record_progress :
    (clock : ℕ) (args : Args) (event : ProgressEvent) (db : Db)
    → ((record_progress clock args event db).runs ≡ db.runs)
      × ((record_progress clock args event db).states ≡ db.states)
unfolding record_progress record_event update_progress
runs-record_progress clock args event db = (ground arith, ground arith)

pub runs-record_all :
    (clock : ℕ) (args : Args) (events : List ProgressEvent) (db : Db)
    → ((record_all clock args events db).runs ≡ db.runs)
      × ((record_all clock args events db).states ≡ db.states)
unfolding record_all
runs-record_all clock args [] db = (refl, refl)
runs-record_all clock args (event ∷ events) db =
    let (a, b) = runs-record_all clock args events (record_progress clock args event db) in
    let (c, d) = runs-record_progress clock args event db in (a ∙ c, b ∙ d)

pub finished_row :
    (clock id : ℕ) (status : RunStatus) (message : Text) (run : SyncRun)
    → run_is_running status ≡ false
    → (run_is_running run.status ≡ true → run.id ≡ id)
    → run_is_running
        (if run.id == id
          then record run { status = status; finished_at = some clock; message = some message }
          else run).status
      ≡ false
finished_row clock id status message run h only = ground arith

pub runs-finish_run :
    (py : DateTimeText) (clock id : ℕ) (status : RunStatus) (message : Text) (scoped : Bool)
    (db : Db)
    → (finish_run py clock id status message scoped db).runs
      ≡ update_where
          (λ run. run.id == id)
          (λ run. record run { status = status; finished_at = some clock; message = some message })
          db.runs
unfolding finish_run set_state
runs-finish_run py clock id status message scoped db = ground arith

pub NoneRunning-finish_run :
    (py : DateTimeText) (clock id : ℕ) (status : RunStatus) (message : Text) (scoped : Bool)
    (db : Db)
    → run_is_running status ≡ false
    → OnlyRunning id db
    → NoneRunning (finish_run py clock id status message scoped db)
NoneRunning-finish_run py clock id status message scoped db h only run i =
    let (old, j, q) =
      IsIn-update (λ r. r.id == id)
        (λ r. record r { status = status; finished_at = some clock; message = some message }) run
        db.runs (rw (runs-finish_run py clock id status message scoped db) at i) in
    ap (λ z. run_is_running z.status) (sym q)
    ∙ finished_row clock id status message old h (only old j)

pub Attempt-cases :
    {A : Type 0} (o : Attempt A) → ((a : A) × (o ≡ returned a)) ⊎ ((e : Text) × (o ≡ raised e))
Attempt-cases (returned a) = inl (a, refl)
Attempt-cases (raised e) = inr (e, refl)

pub run_status_closed : (ok : Bool) → run_is_running (run_status ok) ≡ false
run_status_closed ok = ground arith

pub OnlyRunning-same :
    (id : ℕ) (db after : Db) → after.runs ≡ db.runs → OnlyRunning id db → OnlyRunning id after
OnlyRunning-same id db after e h run i = h run (rw e at i)

pub NoneRunning-same : (db after : Db) → after.runs ≡ db.runs → NoneRunning db → NoneRunning after
NoneRunning-same db after e h run i = h run (rw e at i)
