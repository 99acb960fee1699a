-- ===== src/Sync/Integrity/Writes.antt =====
-- sync_jobs.py and sync_control.py: the operations that add a row, or write to rows that stay, and
-- the invariant of the tables.
use yclients_project.Prelude.{
  ℕ, ◌≡◌, ◌⊎◌, refl, sym, ap, subst, ◌∙◌, Bool, Option, none, some, List, [], ◌∷◌, ◌++◌, Bool-cases,
  Option-cases, inl, inr, IsIn, IsIn-append, append-IsIn_left, ◌==◌, leb,
}
use yclients_project.Prelude.Keyed.{HasKey, IsTable-append, IsTable-update, HasKey-update}
use yclients_project.Prelude.Rows.{update_where, IsIn-update}
use yclients_project.Prelude.Text.{Text}
use yclients_project.Sync.Tables.{
  Db, SyncJob, SyncRun, RunStatus, StepResult, run_is_running, run_is_success,
}
use yclients_project.Sync.Parsing.{DateTimeText}
use yclients_project.Sync.State.{now_or, set_state}
use yclients_project.Sync.Control.{abandon, cleanup_stale_runs, create_run, new_run, finish_run}
use yclients_project.Sync.Jobs.{
  enqueue_job, new_queued_job, write_job, claimed, claim_next_job, next_queued, released,
  release_job_to_queue, Result, finished, finish_job, is_stale_job, reaped, reap_stale_jobs,
}
use yclients_project.Sync.Progress.{ℤ, EventInput, record_event, progressed, update_progress}
use yclients_project.Sync.Integrity.{job_key, run_key, event_key, IsSound}

-- A write to job rows that leaves the ids alone, and lets the rows name runs that are there.
pub jobs_write-IsSound :
    (p : SyncJob → Bool) (f : SyncJob → SyncJob) (db : Db)
    → ((job : SyncJob) → (f job).id ≡ job.id)
    → ((job : SyncJob) (r : ℕ)
        → IsIn job db.jobs
        → (f job).run_id ≡ some r
        → (job.run_id ≡ some r) ⊎ HasKey run_key r db.runs)
    → IsSound db
    → IsSound (record db { jobs = update_where p f db.jobs })
jobs_write-IsSound p f db same fit h = record {
  jobs = IsTable-update job_key p f same db.jobs db.next_job_id h.jobs;
  runs = h.runs;
  events = h.events;
  events_fit =
      λ event i. HasKey-update job_key p f same event.job_id db.jobs (h.events_fit event i);
  runs_fit = λ job r i e.
      let (old, j, q) = IsIn-update p f job db.jobs i in
      elim (Bool-cases (p old)) [
        | inl hit ↦ elim (fit old r j (ap (λ z. z.run_id) (rw hit at q) ∙ e)) [
          | inl kept ↦ h.runs_fit old r j kept
          | inr has ↦ has
        ]
        | inr miss ↦ h.runs_fit old r j (ap (λ z. z.run_id) (rw miss at q) ∙ e)
      ];
}

pub runs_write-IsSound :
    (p : SyncRun → Bool) (f : SyncRun → SyncRun) (db : Db)
    → ((run : SyncRun) → (f run).id ≡ run.id)
    → IsSound db
    → IsSound (record db { runs = update_where p f db.runs })
runs_write-IsSound p f db same h = record {
  jobs = h.jobs;
  runs = IsTable-update run_key p f same db.runs db.next_run_id h.runs;
  events = h.events;
  events_fit = h.events_fit;
  runs_fit = λ job r i e. HasKey-update run_key p f same r db.runs (h.runs_fit job r i e);
}

new_row_fits :
    (new job : SyncJob) (r : ℕ) (db : Db)
    → new.run_id ≡ none
    → IsSound db
    → IsIn job (db.jobs ++ new ∷ [])
    → job.run_id ≡ some r
    → HasKey run_key r db.runs
new_row_fits new job r db unset h i e = elim (IsIn-append job db.jobs (new ∷ []) i) [
  | inl j ↦ h.runs_fit job r j e
  | inr (inl q) ↦ cc (ap (λ z. z.run_id) q)
  | inr (inr j) ↦ absurd j
]

HasKey-append :
    {A : Type 0} (key : A → ℕ) (id : ℕ) (rows : List A) (new : A)
    → HasKey key id rows
    → HasKey key id (rows ++ new ∷ [])
HasKey-append key id rows new (row, i, e) = (row, append-IsIn_left row rows (new ∷ []) i, e)

pub enqueue_job-IsSound :
    (clock : ℕ) (mode : Option Text) (initiator : Text) (account credential : Option ℕ)
    (companies : Option (List ℕ)) (db : Db)
    → IsSound db
    → IsSound (enqueue_job clock mode initiator account credential companies db).0
unfolding enqueue_job
enqueue_job-IsSound clock mode initiator account credential companies db h =
    let new : SyncJob =
      new_queued_job db.next_job_id clock mode initiator account credential companies in
    record {
      jobs = IsTable-append job_key db.jobs db.next_job_id new h.jobs refl;
      runs = h.runs;
      events = h.events;
      events_fit = λ event i. HasKey-append job_key event.job_id db.jobs new (h.events_fit event i);
      runs_fit = λ job r i e. new_row_fits new job r db refl h i e;
    }

-- A write to the row of one job, by a function that keeps the id and the run.
pub write_job-IsSound :
    (id : ℕ) (f : SyncJob → SyncJob) (db : Db)
    → ((job : SyncJob) → (f job).id ≡ job.id)
    → ((job : SyncJob) → ((f job).run_id ≡ job.run_id) ⊎ ((f job).run_id ≡ none))
    → IsSound db
    → IsSound (write_job id f db)
write_job-IsSound id f db same run h =
    jobs_write-IsSound (λ job. job.id == id) f db same
      (λ job r i e. elim (run job) [ inl q ↦ inl (sym q ∙ e) | inr q ↦ cc ]) h

pub claim_next_job-IsSound :
    (clock : ℕ) (db : Db) → IsSound db → IsSound (claim_next_job clock db).0
unfolding claim_next_job
claim_next_job-IsSound clock db h = elim (Option-cases (next_queued db)) [
  | inl e ↦ rw (e, claim_next_job) h
  | inr (job, e) ↦
      rw (e, claim_next_job)
        (write_job-IsSound job.id (claimed clock) db (λ _. refl) (λ _. inl refl) h)
]

pub release_job_to_queue-IsSound :
    (id : ℕ) (db : Db) → IsSound db → IsSound (release_job_to_queue id db)
unfolding release_job_to_queue
release_job_to_queue-IsSound id db h =
    write_job-IsSound id released db (λ _. refl) (λ _. inr refl) h

-- The run that a result names is there: `run_sync_job` created it.
pub finish_job-IsSound :
    (clock id : ℕ) (result : Result) (db : Db)
    → ((r : ℕ) → result.run_id ≡ some r → HasKey run_key r db.runs)
    → IsSound db
    → IsSound (finish_job clock id result db)
unfolding finish_job
finish_job-IsSound clock id result db named h =
    jobs_write-IsSound (λ job. job.id == id) (finished clock result) db (λ _. refl)
      (λ job r i e. inr (named r e)) h

pub reap_stale_jobs-IsSound :
    (minutes : ℕ) (now : Option ℕ) (clock : ℕ) (db : Db)
    → IsSound db
    → IsSound (reap_stale_jobs minutes now clock db).0
unfolding reap_stale_jobs
reap_stale_jobs-IsSound minutes now clock db h = elim (Bool-cases (leb minutes 0)) [
  | inl e ↦ rw e h
  | inr e ↦ rw e (
      jobs_write-IsSound (is_stale_job minutes (now_or now clock)) (reaped (now_or now clock)) db
        (λ _. refl) (λ job r i q. inl q) h)
]

pub update_progress-IsSound :
    (id : Option ℕ) (pct : Option ℤ) (stage : Option Text) (steps : Option (List StepResult))
    (db : Db)
    → IsSound db
    → IsSound (update_progress id pct stage steps db)
unfolding update_progress
update_progress-IsSound none pct stage steps db h = h
update_progress-IsSound (some id) pct stage steps db h =
    write_job-IsSound id (progressed pct stage steps) db (λ _. refl) (λ _. inl refl) h

pub record_event-IsSound :
    (clock : ℕ) (id : Option ℕ) (e : EventInput) (db : Db)
    → ((job_id : ℕ) → id ≡ some job_id → HasKey job_key job_id db.jobs)
    → IsSound db
    → IsSound (record_event clock id e db)
unfolding record_event
record_event-IsSound clock none e db has h = h
record_event-IsSound clock (some job_id) e db has h = record {
  jobs = h.jobs;
  runs = h.runs;
  events = IsTable-append event_key db.events db.next_event_id _ h.events refl;
  events_fit = λ event i. elim (IsIn-append event db.events _ i) [
    | inl j ↦ h.events_fit event j
    | inr (inl q) ↦ subst (λ z. HasKey job_key z.job_id db.jobs) q (has job_id refl)
    | inr (inr j) ↦ absurd j
  ];
  runs_fit = h.runs_fit;
}

pub cleanup_stale_runs-IsSound :
    (clock : ℕ) (db : Db) → IsSound db → IsSound (cleanup_stale_runs clock db).0
unfolding cleanup_stale_runs
cleanup_stale_runs-IsSound clock db h =
    runs_write-IsSound (λ run. run_is_running run.status) (abandon clock) db (λ _. refl) h

pub create_run-IsSound :
    (clock : ℕ) (mode trigger initiator path : Text) (db : Db)
    → IsSound db
    → IsSound (create_run clock mode trigger initiator path db).0
unfolding create_run
create_run-IsSound clock mode trigger initiator path db h =
    let new : SyncRun = new_run db.next_run_id clock mode trigger initiator path in
    record {
      jobs = h.jobs;
      runs = IsTable-append run_key db.runs db.next_run_id new h.runs refl;
      events = h.events;
      events_fit = h.events_fit;
      runs_fit = λ job r i e. HasKey-append run_key r db.runs new (h.runs_fit job r i e);
    }

pub finish_run-IsSound :
    (py : DateTimeText) (clock id : ℕ) (status : RunStatus) (message : Text) (scoped : Bool)
    (db : Db)
    → IsSound db
    → IsSound (finish_run py clock id status message scoped db)
unfolding finish_run set_state
finish_run-IsSound py clock id status message scoped db h =
    let closed =
      runs_write-IsSound (λ run. run.id == id)
        (λ run. record run { status = status; finished_at = some clock; message = some message }) db
        (λ _. refl) h in
    elim (Bool-cases (run_is_success status)) [
      | inl e ↦ elim (Bool-cases scoped) [
        | inl s ↦
            rw (e, s)
              (record {
                jobs = closed.jobs;
                runs = closed.runs;
                events = closed.events;
                events_fit = closed.events_fit;
                runs_fit = closed.runs_fit;
              })
        | inr s ↦
            rw (e, s)
              (record {
                jobs = closed.jobs;
                runs = closed.runs;
                events = closed.events;
                events_fit = closed.events_fit;
                runs_fit = closed.runs_fit;
              })
      ]
      | inr e ↦ rw e closed
    ]
