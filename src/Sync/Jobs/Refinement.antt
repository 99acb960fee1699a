-- ===== src/Sync/Jobs/Refinement.antt =====
-- sync_jobs.py: runs of the queue's operations on the table, and runs of a plain queue of ids.
use yclients_project.Prelude.{
  ℕ, ◌≡◌, refl, sym, subst, false, Option, List, [], ◌∷◌, ◌++◌, leb, IsIn,
}
use yclients_project.Prelude.Rows.{insert_by}
use yclients_project.Prelude.Text.{Text}
use yclients_project.Sync.Tables.{Db, SyncJob, is_queued}
use yclients_project.Sync.Jobs.{enqueue_job, claim_next_job, release_job_to_queue, released}
use yclients_project.Sync.Jobs.Fifo.{IsQueue, waiting, pop, id_of, claim_pops}
use yclients_project.Sync.Jobs.Waiting.{
  enqueued, enqueued-IsQueue, enqueue_appends, claim-IsQueue, released_row, write_job-IsQueue,
}

-- What a caller sees: the id that was given out, the id that was claimed, the id that was put back.
pub data Event : Type 0 where
  entered : ℕ → Event
  taken : Option ℕ → Event
  put_back : ℕ → Event

-- An operation on the table. A job that is put back is there and does not wait.
pub data Step : Event → Db → Db → Type 0 where
  enqueues :
      (clock : ℕ) (mode : Option Text) (initiator : Text) (account credential : Option ℕ)
      (companies : Option (List ℕ)) (db : Db)
      → Step
          (entered (enqueue_job clock mode initiator account credential companies db).1.id)
          db
          (enqueued clock mode initiator account credential companies db)
  claims :
      (clock : ℕ) (db : Db)
      → Step (taken (id_of (claim_next_job clock db).1)) db (claim_next_job clock db).0
  releases :
      (row : SyncJob) (db : Db)
      → IsIn row db.jobs
      → is_queued row.status ≡ false
      → Step (put_back row.id) db (release_job_to_queue row.id db)

-- The same on a queue of ids: at the end, from the head, and back to the place of its id.
pub data QueueStep : Event → List ℕ → List ℕ → Type 0 where
  appends : (id : ℕ) (queue : List ℕ) → QueueStep (entered id) queue (queue ++ id ∷ [])
  pops : (queue : List ℕ) → QueueStep (taken (pop queue).0) queue (pop queue).1
  returns : (id : ℕ) (queue : List ℕ) → QueueStep (put_back id) queue (insert_by leb id queue)

pub data Runs : List Event → Db → Db → Type 0 where
  idle : (db : Db) → Runs [] db db
  then_step :
      (event : Event) (events : List Event) (before mid after : Db)
      → Step event before mid
      → Runs events mid after
      → Runs (event ∷ events) before after

pub data QueueRuns : List Event → List ℕ → List ℕ → Type 0 where
  idle : (queue : List ℕ) → QueueRuns [] queue queue
  then_step :
      (event : Event) (events : List Event) (before mid after : List ℕ)
      → QueueStep event before mid
      → QueueRuns events mid after
      → QueueRuns (event ∷ events) before after

step_refines :
    (event : Event) (before after : Db)
    → Step event before after
    → IsQueue before
    → QueueStep event (waiting before) (waiting after) × IsQueue after
unfolding release_job_to_queue enqueue_job
step_refines _ _ _ (enqueues clock mode initiator account credential companies db) q = (
  subst (λ z. QueueStep (entered db.next_job_id) (waiting db) z)
      (sym (enqueue_appends clock mode initiator account credential companies db))
      (appends db.next_job_id (waiting db)),
  enqueued-IsQueue clock mode initiator account credential companies db q,
)
step_refines _ _ _ (claims clock db) q = (
  subst (λ (z : Option ℕ × List ℕ). QueueStep (taken z.0) (waiting db) z.1)
      (sym (claim_pops clock db q)) (pops (waiting db)),
  claim-IsQueue clock db q,
)
step_refines _ _ _ (releases row db i h) q = (
  subst (λ z. QueueStep (put_back row.id) (waiting db) z)
      (sym (released_row row db.jobs q.ascending i h)) (returns row.id (waiting db)),
  write_job-IsQueue row.id released db (λ j. refl) q,
)

-- Every run of the queue's operations on the table is a run of a plain first-in first-out queue on
-- the ids of the jobs that wait, with the same ids given out, claimed and put back.
pub runs_refine :
    (events : List Event) (before after : Db)
    → Runs events before after
    → IsQueue before
    → QueueRuns events (waiting before) (waiting after) × IsQueue after
runs_refine _ _ _ (idle db) q = (idle (waiting db), q)
runs_refine _ _ _ (then_step event events before mid after step rest) q =
    let (here, q2) = step_refines event before mid step q in
    let (later, q3) = runs_refine events mid after rest q2 in
    (then_step event events (waiting before) (waiting mid) (waiting after) here later, q3)
