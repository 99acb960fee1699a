-- ===== src/Sync/Integrity/Sweeps.antt =====
-- sync_jobs.py and sync_control.py: the retention sweeps and the invariant of the tables.
use yclients_project.Prelude.{
  ℕ, ◌≡◌, refl, ap, ◌∙◌, Bool, true, false, not, Option, none, some, List, arith, if◌then◌else◌,
  Bool-cases, inl, inr, leb, elem,
}
use yclients_project.Prelude.Keyed.{HasKey, IsTable-select, IsTable-update, HasKey-update}
use yclients_project.Prelude.Rows.{
  delete_where, update_where, IsIn-update, IsIn-select, select-IsIn,
}
use yclients_project.Sync.Tables.{Db, SyncJob}
use yclients_project.Sync.State.{now_or}
use yclients_project.Sync.Control.{names_run, stale_run_ids, purge_old_runs}
use yclients_project.Sync.Jobs.{stale_job_ids, purge_old_jobs}
use yclients_project.Sync.Integrity.{job_key, run_key, event_key, IsSound}

HasKey-kept :
    {A : Type 0} (key : A → ℕ) (ids : List ℕ) (id : ℕ) (rows : List A)
    → elem id ids ≡ false
    → HasKey key id rows
    → HasKey key id (delete_where (λ row. elem (key row) ids) rows)
HasKey-kept key ids id rows kept (row, i, e) = (
  row,
  select-IsIn (λ r. not (elem (key r) ids)) row rows i (ap (λ k. not (elem k ids)) e ∙ ap not kept),
  e,
)

not_elem : (b : Bool) → not b ≡ true → b ≡ false
not_elem b h = ground arith

delete_jobs-IsSound :
    (ids : List ℕ) (db : Db)
    → IsSound db
    → IsSound (record db {
      events = delete_where (λ event. elem event.job_id ids) db.events;
      jobs = delete_where (λ job. elem job.id ids) db.jobs;
    })
delete_jobs-IsSound ids db h = record {
  jobs = IsTable-select job_key (λ job. not (elem job.id ids)) db.jobs db.next_job_id h.jobs;
  runs = h.runs;
  events =
      IsTable-select event_key (λ event. not (elem event.job_id ids)) db.events db.next_event_id
        h.events;
  events_fit = λ event i.
      let (j, kept) = IsIn-select (λ e. not (elem e.job_id ids)) event db.events i in
      HasKey-kept job_key ids event.job_id db.jobs (not_elem _ kept) (h.events_fit event j);
  runs_fit =
      λ job r i e. h.runs_fit job r (IsIn-select (λ k. not (elem k.id ids)) job db.jobs i).0 e;
}

pub purge_old_jobs-IsSound :
    (retention_days : ℕ) (now : Option ℕ) (clock : ℕ) (db : Db)
    → IsSound db
    → IsSound (purge_old_jobs retention_days now clock db).0
unfolding purge_old_jobs
purge_old_jobs-IsSound retention_days now clock db h = elim (Bool-cases (leb retention_days 0)) [
  | inl e ↦ rw e h
  | inr e ↦
      rw e (delete_jobs-IsSound (stale_job_ids retention_days (now_or now clock) db.jobs) db h)
]

cleared_fits :
    (ids : List ℕ) (old : SyncJob) (r : ℕ)
    → (if names_run ids old then record old { run_id = none } else old).run_id ≡ some r
    → (old.run_id ≡ some r) × (elem r ids ≡ false)
cleared_fits ids old r h = ground arith

delete_runs-IsSound :
    (ids : List ℕ) (db : Db)
    → IsSound db
    → IsSound (record db {
      jobs = update_where (names_run ids) (λ job. record job { run_id = none }) db.jobs;
      runs = delete_where (λ run. elem run.id ids) db.runs;
    })
delete_runs-IsSound ids db h = record {
  jobs =
      IsTable-update job_key (names_run ids) (λ job. record job { run_id = none }) (λ _. refl)
        db.jobs db.next_job_id h.jobs;
  runs = IsTable-select run_key (λ run. not (elem run.id ids)) db.runs db.next_run_id h.runs;
  events = h.events;
  events_fit = λ event i.
      HasKey-update job_key (names_run ids) (λ job. record job { run_id = none }) (λ _. refl)
        event.job_id db.jobs (h.events_fit event i);
  runs_fit = λ job r i e.
      let (old, j, q) =
        IsIn-update (names_run ids) (λ k. record k { run_id = none }) job db.jobs i in
      let (named, kept) = cleared_fits ids old r (ap (λ z. z.run_id) q ∙ e) in
      HasKey-kept run_key ids r db.runs kept (h.runs_fit old r j named);
}

-- The sweep of the run register: a job that named a deleted run stops naming it.
pub purge_old_runs-IsSound :
    (retention_days : ℕ) (now : Option ℕ) (clock : ℕ) (db : Db)
    → IsSound db
    → IsSound (purge_old_runs retention_days now clock db).0
unfolding purge_old_runs
purge_old_runs-IsSound retention_days now clock db h = elim (Bool-cases (leb retention_days 0)) [
  | inl e ↦ rw e h
  | inr e ↦ rw e (delete_runs-IsSound (stale_run_ids retention_days (now_or now clock) db) db h)
]
