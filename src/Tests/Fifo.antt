-- ===== src/Tests/Fifo.antt =====
-- A run of the job queue, and the theorem of Sync.Jobs.Refinement at it.
use yclients_project.Prelude.{refl, arith, inl, none, some, List, [], ◌∷◌}
use yclients_project.Prelude.Text.{codes}
use yclients_project.Sync.Tables.{Db}
use yclients_project.Sync.Jobs.{
  claim_next_job, claimed, release_job_to_queue, enqueue_job, next_queued,
}
use yclients_project.Sync.Jobs.Fifo.{IsQueue, waiting}
use yclients_project.Sync.Jobs.Waiting.{enqueued}
use yclients_project.Sync.Jobs.Refinement.{
  Event, entered, taken, put_back, enqueues, claims, releases, Runs, idle, then_step, QueueRuns,
  runs_refine,
}
use yclients_project.Tests.{waiting as waiting_job, filled}

abbrev before : Db
before = record filled { jobs = waiting_job ∷ []; next_job_id = 4 }

abbrev entry : Db
entry = enqueued 5 none (codes "api") (some 7) none none before

abbrev claim : Db
claim = (claim_next_job 10 entry).0

abbrev after : Db
after = release_job_to_queue 2 claim

abbrev events : List Event
events = entered 4 ∷ taken (some 2) ∷ put_back 2 ∷ []

run : Runs events before after
unfolding claim_next_job release_job_to_queue enqueue_job next_queued
run =
    then_step (entered 4) (taken (some 2) ∷ put_back 2 ∷ []) before entry after
      (enqueues 5 none (codes "api") (some 7) none none before)
      (then_step (taken (some 2)) (put_back 2 ∷ []) entry claim after (claims 10 entry) (
        then_step (put_back 2) [] claim after after
          (releases (claimed 10 waiting_job) claim (inl refl) refl) (idle after)))

before-IsQueue : IsQueue before
before-IsQueue = record { ascending = (tt, tt); below = (omega arith, tt) }

runs_refine_example : QueueRuns events (waiting before) (waiting after) × IsQueue after
runs_refine_example = runs_refine events before after run before-IsQueue
