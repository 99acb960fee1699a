-- ===== src/Sync/Jobs/Queue.antt =====
-- sync_jobs.py: the order of the queue under a claim and a release.
use yclients_project.Prelude.{
  ℕ, ◌≤◌, ◌≡◌, ◌≢◌, refl, sym, ap, subst, ◌∙◌, Bool, true, false, Option, none, some, List, arith,
  if◌then◌else◌, Bool-cases, Option-cases, inl, inr, IsIn, ◌==◌, ==_refl,
}
use yclients_project.Prelude.Rows.{
  select, IsOrder, first-order_by, first-none, first-some, IsIn-select, select-IsIn, IsIn-update,
  update-IsIn_hit, update-IsIn_miss,
}
use yclients_project.Sync.Tables.{Db, SyncJob, JobStatus, is_queued}
use yclients_project.Sync.Jobs.{
  job_older, job_newer, active_before, next_queued, claim_next_job, claimed, released,
  release_job_to_queue, write_job,
}

pub job_older-IsOrder : IsOrder job_older
job_older-IsOrder = record { total = λ a b h. ground arith; trans = λ a b c h k. ground arith }

pub job_newer-IsOrder : IsOrder job_newer
job_newer-IsOrder = record { total = λ a b h. ground arith; trans = λ a b c h k. ground arith }

pub active_before-IsOrder : IsOrder active_before
active_before-IsOrder = record { total = λ a b h. ground arith; trans = λ a b c h k. ground arith }

-- No two rows of the jobs table have the same id.
abbrev pub JobsKeyed : List SyncJob → Type 0
JobsKeyed jobs = (a b : SyncJob) → IsIn a jobs → IsIn b jobs → a.id ≡ b.id → a ≡ b

abbrev pub IsNextInQueue : SyncJob → Db → Type 0
IsNextInQueue job db =
    IsIn job db.jobs
    × (is_queued job.status ≡ true)
    × ((k : SyncJob) → IsIn k db.jobs → is_queued k.status ≡ true → job.id ≤ k.id)

pub next_queued_lem : (job : SyncJob) (db : Db) → next_queued db ≡ some job → IsNextInQueue job db
unfolding next_queued
next_queued_lem job db h =
    let queue : List SyncJob = select (λ j. is_queued j.status) db.jobs in
    let (i, least) = first-order_by job_older job_older-IsOrder job queue h in
    let (here, q) = IsIn-select (λ j. is_queued j.status) job db.jobs i in
    (
      here,
      q,
      λ k j e. ground (arith, least k (select-IsIn (λ j. is_queued j.status) k db.jobs j e)),
    )

pub next_queued-none :
    (k : SyncJob) (db : Db) → next_queued db ≡ none → IsIn k db.jobs → is_queued k.status ≡ false
unfolding next_queued
next_queued-none k db h i = elim (Bool-cases (is_queued k.status)) [
  | inl e ↦ absurd (
      first-none job_older job_older-IsOrder k (select (λ j. is_queued j.status) db.jobs) h
        (select-IsIn (λ j. is_queued j.status) k db.jobs i e))
  | inr e ↦ e
]

next_queued-some :
    (k : SyncJob) (db : Db)
    → IsIn k db.jobs
    → is_queued k.status ≡ true
    → (job : SyncJob) × (next_queued db ≡ some job)
unfolding next_queued
next_queued-some k db i e =
    first-some job_older job_older-IsOrder k (select (λ j. is_queued j.status) db.jobs)
      (select-IsIn (λ j. is_queued j.status) k db.jobs i e)

pub claim_next_job-some :
    (clock : ℕ) (db after : Db) (job : SyncJob)
    → claim_next_job clock db ≡ (after, some job)
    → (old : SyncJob) × IsNextInQueue old db
      × (job ≡ claimed clock old)
      × (after ≡ write_job old.id (claimed clock) db)
unfolding claim_next_job
claim_next_job-some clock db after job h = elim (Option-cases (next_queued db)) [
  | inl e ↦ cc (rw (e, claim_next_job) at h)
  | inr (old, e) ↦
      (let q : (write_job old.id (claimed clock) db, some (claimed clock old)) ≡ (after, some job) =
          rw (e, claim_next_job) at h in
        (
          old,
          next_queued_lem old db e,
          cc (ap (λ (r : Db × Option SyncJob). r.1) q),
          ap (λ (r : Db × Option SyncJob). r.0) (sym q),
        ))
]

claimed_row :
    (clock id : ℕ) (old job : SyncJob)
    → (if old.id == id then claimed clock old else old) ≡ job
    → (job.id ≢ id → old ≡ job) × (job.id ≡ old.id)
claimed_row clock id old job e = (λ other. ground arith, ground arith)

claimed_hit :
    (clock : ℕ) (old : SyncJob)
    → (if old.id == old.id then claimed clock old else old) ≡ claimed clock old
claimed_hit clock old = rw (==_refl old.id) refl

-- When the ids of the jobs are distinct, a claim takes the queued job with the lowest id: that row
-- is running from this moment on and is the only one with its id, every other row is the row that
-- it was, none is lost or added, and no other table is written.
pub claim_next_job_lem :
    (clock : ℕ) (db after : Db) (job : SyncJob)
    → JobsKeyed db.jobs
    → claim_next_job clock db ≡ (after, some job)
    → (old : SyncJob) × IsNextInQueue old db
      × (job.id ≡ old.id)
      × (job.status ≡ JobStatus.running)
      × (job.started_at ≡ some clock)
      × IsIn job after.jobs
      × ((k : SyncJob) → IsIn k after.jobs → k.id ≡ job.id → k ≡ job)
      × ((k : SyncJob) → k.id ≢ job.id → IsIn k after.jobs → IsIn k db.jobs)
      × ((k : SyncJob) → k.id ≢ job.id → IsIn k db.jobs → IsIn k after.jobs)
      × (after ≡ record db { jobs = after.jobs })
claim_next_job_lem clock db after job keyed h =
    let (old, next, e, f) = claim_next_job-some clock db after job h in
    let hit : SyncJob → Bool = λ k. k.id == old.id in
    rw (e, f)
      (
        old,
        next,
        refl,
        refl,
        refl,
        update-IsIn_hit hit (claimed clock) old db.jobs next.0 (==_refl old.id),
        λ k i same.
            let (x, j, q) = IsIn-update hit (claimed clock) k db.jobs i in
            let p : x ≡ old =
              keyed x old j next.0 (sym (claimed_row clock old.id x k q).1 ∙ same) in
            sym q
            ∙ ap (λ (z : SyncJob). if z.id == old.id then claimed clock z else z) p
            ∙ claimed_hit clock old,
        λ k other i.
            let (x, j, q) = IsIn-update hit (claimed clock) k db.jobs i in
            subst (λ z. IsIn z db.jobs) ((claimed_row clock old.id x k q).0 other) j,
        λ k other i. update-IsIn_miss hit (claimed clock) k db.jobs i (ground arith),
        refl,
      )

claim_next_job-none :
    (clock : ℕ) (db after : Db)
    → claim_next_job clock db ≡ (after, none)
    → (after ≡ db) × (next_queued db ≡ none)
unfolding claim_next_job
claim_next_job-none clock db after h = elim (Option-cases (next_queued db)) [
  | inl e ↦ (ap (λ (r : Db × Option SyncJob). r.0) (sym (rw (e, claim_next_job) at h)), e)
  | inr (old, e) ↦ cc (ap (λ (r : Db × Option SyncJob). r.1) (rw (e, claim_next_job) at h))
]

-- A worker that finds nothing to claim changes nothing, and no job is queued.
pub claim_next_job_idle :
    (clock : ℕ) (db after : Db)
    → claim_next_job clock db ≡ (after, none)
    → (after ≡ db) × ((k : SyncJob) → IsIn k db.jobs → is_queued k.status ≡ false)
claim_next_job_idle clock db after h =
    let (same, e) = claim_next_job-none clock db after h in (same, λ k i. next_queued-none k db e i)

-- A row after a claim and a release is a row before them, reset if it is the claimed one.
row_after_release :
    (clock id : ℕ) (db : Db) (k : SyncJob)
    → IsIn k (release_job_to_queue id (write_job id (claimed clock) db)).jobs
    → (old : SyncJob) × IsIn old db.jobs
      × ((if old.id == id then released (claimed clock old) else old) ≡ k)
unfolding release_job_to_queue
row_after_release clock id db k i =
    let (x, j, e) =
      IsIn-update (λ job. job.id == id) released k (write_job id (claimed clock) db).jobs i in
    let (y, m, f) = IsIn-update (λ job. job.id == id) (claimed clock) x db.jobs j in
    (y, m, ground arith)

released_row :
    (clock : ℕ) (old : SyncJob) (db : Db)
    → IsIn old db.jobs
    → IsIn
        (released (claimed clock old))
        (release_job_to_queue old.id (write_job old.id (claimed clock) db)).jobs
unfolding release_job_to_queue
released_row clock old db i =
    update-IsIn_hit (λ job. job.id == old.id) released (claimed clock old)
      (write_job old.id (claimed clock) db).jobs
      (update-IsIn_hit (λ job. job.id == old.id) (claimed clock) old db.jobs i (==_refl old.id))
      (==_refl old.id)

again_id :
    (clock : ℕ) (db : Db) (old again : SyncJob)
    → IsNextInQueue old db
    → IsNextInQueue again (release_job_to_queue old.id (write_job old.id (claimed clock) db))
    → again.id ≡ old.id
again_id clock db old again next (i, q, least) =
    let (x, m, e) = row_after_release clock old.id db again i in
    let below : again.id ≤ old.id =
      least (released (claimed clock old)) (released_row clock old db next.0) refl in
    ground (arith, next.2 x m)

-- A job that is handed back because another sync holds the lock keeps its place: it is the next
-- one to be claimed.
pub release_keeps_place :
    (clock : ℕ) (db after : Db) (job : SyncJob)
    → claim_next_job clock db ≡ (after, some job)
    → (again : SyncJob) × (next_queued (release_job_to_queue job.id after) ≡ some again)
      × (again.id ≡ job.id)
release_keeps_place clock db after job h =
    let (old, next, e, f) = claim_next_job-some clock db after job h in
    let back : Db = release_job_to_queue old.id (write_job old.id (claimed clock) db) in
    let (again, found) =
      next_queued-some (released (claimed clock old)) back (released_row clock old db next.0)
        refl in
    rw (e, f) (again, found, again_id clock db old again next (next_queued_lem again back found))
