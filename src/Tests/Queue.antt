-- ===== src/Tests/Queue.antt =====
-- The queue, the worker and the automatic enqueue at concrete tables.
use yclients_project.Prelude.{
  ℕ, ◌+◌, ◌<◌, ◌≤◌, ◌≡◌, ◌≢◌, ◌⊎◌, refl, true, false, none, some, [], ◌∷◌, arith, inl, IsIn,
}
use yclients_project.Sync.Tables.{Db, SyncJob, JobStatus, is_running, minutes, days}
use yclients_project.Sync.Jobs.{
  claim_next_job, next_queued, claimed, purge_old_jobs, get_latest_job, last_activity, is_active,
  reap_stale_jobs,
}
use yclients_project.Sync.Jobs.Queue.{JobsKeyed, IsNextInQueue, claim_next_job_lem}
use yclients_project.Sync.Jobs.Retained.{get_latest_job-purge}
use yclients_project.Sync.Jobs.Purge.{purge_deletes_old}
use yclients_project.Sync.Jobs.Reap.{since, HasFailed, NoneOverdue, reap_stale_jobs_lem}
use yclients_project.Sync.AutoEnqueue.{Config, enqueue_auto_sync_jobs_if_due}
use yclients_project.Sync.AutoEnqueue.Once.{IsServed, auto_enqueue_serves}
use yclients_project.Sync.Control.{get_running_run}
use yclients_project.Sync.Orchestrator.{World}
use yclients_project.Sync.Worker.{process_next_job, reap_orphans_if_no_sync_running}
use yclients_project.Sync.Worker.Settles.{IsSettled, process_next_job_settles}
use yclients_project.Sync.Worker.Orphans.{IsClosed, reap_orphans_closes}
use yclients_project.Tests.{unary, waiting, stuck, done, filled, idle, quiet, no_failures, tenant}

filled-keyed : JobsKeyed filled.jobs
filled-keyed a b i j e = ground arith

abbrev claimed_filled : Db
claimed_filled = (claim_next_job 10 filled).0

claim_next_job_lem_example :
    (old : SyncJob) × IsNextInQueue old filled
    × (waiting.id ≡ old.id)
    × ((claimed 10 waiting).status ≡ JobStatus.running)
    × ((claimed 10 waiting).started_at ≡ some 10)
    × IsIn (claimed 10 waiting) claimed_filled.jobs
    × ((k : SyncJob) → IsIn k claimed_filled.jobs → k.id ≡ waiting.id → k ≡ claimed 10 waiting)
    × ((k : SyncJob) → k.id ≢ waiting.id → IsIn k claimed_filled.jobs → IsIn k filled.jobs)
    × ((k : SyncJob) → k.id ≢ waiting.id → IsIn k filled.jobs → IsIn k claimed_filled.jobs)
    × (claimed_filled ≡ record filled { jobs = claimed_filled.jobs })
unfolding claim_next_job next_queued
claim_next_job_lem_example =
    claim_next_job_lem 10 filled claimed_filled (claimed 10 waiting) filled-keyed refl

abbrev empty_queue : Db
empty_queue = record filled { jobs = stuck ∷ done ∷ [] }

-- far beyond every retention and every limit
abbrev late : ℕ
late = days 1000

get_latest_job-purge_example :
    get_latest_job (some 8) (purge_old_jobs 30 (some late) late filled).0
    ≡ get_latest_job (some 8) filled
get_latest_job-purge_example = get_latest_job-purge 30 (some late) late (some 8) filled filled-keyed

abbrev two_done : Db
two_done = record filled { jobs = done ∷ record done { id = 4 } ∷ [] }

two_done-keyed : JobsKeyed two_done.jobs
two_done-keyed a b i j e = ground arith

purge_deletes_old_example :
    IsIn done (purge_old_jobs 30 (some late) late two_done).0.jobs
    ⊎ ((is_active done.status ≡ false) × (last_activity done + days 30 < late))
purge_deletes_old_example = purge_deletes_old 30 late late two_done done two_done-keyed (inl refl)

reap_stale_jobs_lem_example :
    NoneOverdue 60 late (reap_stale_jobs 60 (some late) late filled).0
    × ((job : SyncJob)
        → IsIn job filled.jobs
        → (is_running job.status ≡ false) ⊎ (late ≤ since job + minutes 60)
        → IsIn job (reap_stale_jobs 60 (some late) late filled).0.jobs)
    × ((job : SyncJob)
        → IsIn job filled.jobs
        → job.status ≡ JobStatus.running
        → since job + minutes 60 < late
        → HasFailed job.id late (reap_stale_jobs 60 (some late) late filled).0)
reap_stale_jobs_lem_example = reap_stale_jobs_lem 60 late late filled (omega arith)

abbrev hourly : Config
hourly = record { enabled = true; interval_minutes = 60 }

abbrev nobody_queued : Db
nobody_queued = record filled { jobs = done ∷ [] }

auto_enqueue_serves_example :
    IsServed 60 late 7 (enqueue_auto_sync_jobs_if_due unary hourly (some late) late nobody_queued).0
unfolding enqueue_auto_sync_jobs_if_due get_running_run yclients_project.Sync.State.last_ran_at
    yclients_project.Sync.Parsing.parse_datetime yclients_project.Sync.State.get_state_value
auto_enqueue_serves_example =
    auto_enqueue_serves unary hourly late late nobody_queued
      (enqueue_auto_sync_jobs_if_due unary hourly (some late) late nobody_queued).0
      (enqueue_auto_sync_jobs_if_due unary hourly (some late) late nobody_queued).1 refl refl refl 7
      tenant (inl refl) refl refl

process_next_job_settles_example :
    IsSettled 2 (process_next_job unary 10 quiet no_failures 9 idle).0.db
unfolding claim_next_job next_queued get_running_run
process_next_job_settles_example =
    process_next_job_settles unary 10 quiet no_failures 9 idle (claim_next_job 10 filled).0
      (claimed 10 waiting) refl refl refl refl refl refl refl

reap_orphans_closes_example :
    IsClosed 60 late
      (reap_orphans_if_no_sync_running 60 late
        (record { cleanup_raises = none; reap_raises = none })
        9
        idle).0.db
reap_orphans_closes_example =
    reap_orphans_closes 60 late (record { cleanup_raises = none; reap_raises = none }) 9 idle
      (omega arith) refl refl refl

abbrev taken : World
taken = record idle { lock = some 3 }
