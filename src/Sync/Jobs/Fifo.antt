-- ===== src/Sync/Jobs/Fifo.antt =====
-- sync_jobs.py: the jobs that wait, as a queue of their ids.
use yclients_project.Prelude.{
  ℕ, ◌<◌, ◌≡◌, refl, sym, ap, subst, inl, inr, ◌∙◌, Bool, true, false, Option, none, some, List, [],
  ◌∷◌, arith, ◌==◌, leb, if◌then◌else◌, Bool-cases, Option-cases,
}
use yclients_project.Prelude.Rows.{select, update_where, order_by, insert_by, first}
use yclients_project.Sync.Tables.{Db, SyncJob, is_queued}
use yclients_project.Sync.Jobs.{claim_next_job, next_queued, job_older, claimed, write_job}

abbrev pub ids_of : List SyncJob → List ℕ
ids_of [] = []
ids_of (job ∷ jobs) = job.id ∷ ids_of jobs

abbrev pub IsAbove : ℕ → List ℕ → Type 0
IsAbove a [] = Unit
IsAbove a (x ∷ xs) = (a < x) × IsAbove a xs

abbrev pub IsAscending : List ℕ → Type 0
IsAscending [] = Unit
IsAscending (x ∷ xs) = IsAbove x xs × IsAscending xs

abbrev pub IsBelow : ℕ → List ℕ → Type 0
IsBelow a [] = Unit
IsBelow a (x ∷ xs) = (x < a) × IsBelow a xs

-- The rows stand in the order of their ids, which are all below the next value of the sequence.
pub record IsQueue (db : Db) : Type 0 where
  pub ascending : IsAscending (ids_of db.jobs)
  pub below : IsBelow db.next_job_id (ids_of db.jobs)

abbrev pub queued_jobs : List SyncJob → List SyncJob
queued_jobs jobs = select (λ (job : SyncJob). is_queued job.status) jobs

-- The ids of the jobs that wait.
abbrev pub waiting : Db → List ℕ
waiting db = ids_of (queued_jobs db.jobs)

-- Taking from a queue of ids.
abbrev pub pop : List ℕ → Option ℕ × List ℕ
pop [] = (none, [])
pop (x ∷ xs) = (some x, xs)

abbrev pub id_of : Option SyncJob → Option ℕ
id_of none = none
id_of (some job) = some job.id

pub IsAbove-select :
    (a : ℕ) (p : SyncJob → Bool) (jobs : List SyncJob)
    → IsAbove a (ids_of jobs)
    → IsAbove a (ids_of (select p jobs))
IsAbove-select a p [] h = tt
IsAbove-select a p (job ∷ jobs) h = elim (Bool-cases (p job)) [
  | inl e ↦ rw e (h.0, IsAbove-select a p jobs h.1)
  | inr e ↦ rw e (IsAbove-select a p jobs h.1)
]

IsAscending-select :
    (p : SyncJob → Bool) (jobs : List SyncJob)
    → IsAscending (ids_of jobs)
    → IsAscending (ids_of (select p jobs))
IsAscending-select p [] h = tt
IsAscending-select p (job ∷ jobs) h = elim (Bool-cases (p job)) [
  | inl e ↦ rw e (IsAbove-select job.id p jobs h.0, IsAscending-select p jobs h.1)
  | inr e ↦ rw e (IsAscending-select p jobs h.1)
]

insert_low :
    (job : SyncJob) (jobs : List SyncJob)
    → IsAbove job.id (ids_of jobs)
    → insert_by job_older job jobs ≡ job ∷ jobs
insert_low job [] h = refl
insert_low job (k ∷ jobs) h =
    let first_is : leb job.id k.id ≡ true = ground (arith, h.0) in rw first_is refl

order_ascending : (jobs : List SyncJob) → IsAscending (ids_of jobs) → order_by job_older jobs ≡ jobs
order_ascending [] h = refl
order_ascending (job ∷ jobs) h =
    ap (insert_by job_older job) (order_ascending jobs h.1) ∙ insert_low job jobs h.0

next_queued_eq : (db : Db) → IsQueue db → next_queued db ≡ first (queued_jobs db.jobs)
unfolding next_queued
next_queued_eq db q = ap first (
    order_ascending (queued_jobs db.jobs)
      (IsAscending-select (λ (job : SyncJob). is_queued job.status) db.jobs q.ascending))

pub update_above :
    (a : ℕ) (f : SyncJob → SyncJob) (jobs : List SyncJob)
    → IsAbove a (ids_of jobs)
    → update_where (λ (job : SyncJob). job.id == a) f jobs ≡ jobs
update_above a f [] h = refl
update_above a f (job ∷ jobs) h =
    let miss : (job.id == a) ≡ false = ground (arith, h.0) in
    rw (miss, update_above a f jobs h.1) refl

pub same_id_lem : (a : ℕ) → (a == a) ≡ true
same_id_lem a = ground arith

claimed_first :
    (clock : ℕ) (k : SyncJob) (jobs : List SyncJob)
    → IsAbove k.id (ids_of jobs)
    → is_queued k.status ≡ true
    → ids_of (queued_jobs (k ∷ jobs))
      ≡ k.id
        ∷ ids_of
            (queued_jobs (update_where (λ (j : SyncJob). j.id == k.id) (claimed clock) (k ∷ jobs)))
claimed_first clock k jobs h q =
    rw (q, same_id_lem k.id, update_above k.id (claimed clock) jobs h) refl

first_of :
    (k job : SyncJob) (jobs : List SyncJob)
    → is_queued k.status ≡ true
    → first (queued_jobs (k ∷ jobs)) ≡ some job
    → k ≡ job
first_of k job jobs q e = cc (rw q at e)

not_queued :
    (clock : ℕ) (k job : SyncJob)
    → is_queued k.status ≡ false
    → is_queued (if k.id == job.id then claimed clock k else k).status ≡ false
not_queued clock k job q = ground arith

claim_head :
    (clock : ℕ) (job : SyncJob) (jobs : List SyncJob)
    → IsAscending (ids_of jobs)
    → first (queued_jobs jobs) ≡ some job
    → ids_of (queued_jobs jobs)
      ≡ job.id
        ∷ ids_of (queued_jobs (update_where (λ (j : SyncJob). j.id == job.id) (claimed clock) jobs))
claim_head clock job [] h e = cc
claim_head clock job (k ∷ jobs) h e = elim (Bool-cases (is_queued k.status)) [
  | inl q ↦
      (subst
        (λ (z : SyncJob).
          ids_of (queued_jobs (k ∷ jobs))
          ≡ z.id
            ∷ ids_of (
                queued_jobs
                  (update_where (λ (j : SyncJob). j.id == z.id) (claimed clock) (k ∷ jobs))))
        (first_of k job jobs q e) (claimed_first clock k jobs h.0 q))
  | inr q ↦ rw (q, not_queued clock k job q) (claim_head clock job jobs h.1 (rw q at e))
]

empty_of : (jobs : List SyncJob) → first jobs ≡ none → jobs ≡ []
empty_of [] e = refl
empty_of (job ∷ jobs) e = cc

module _ (clock : ℕ) (db : Db) where
  pub claim_some :
      (job : SyncJob)
      → next_queued db ≡ some job
      → claim_next_job clock db ≡ (write_job job.id (claimed clock) db, some (claimed clock job))
  unfolding claim_next_job
  claim_some job e = ground arith

  pub claim_none : next_queued db ≡ none → claim_next_job clock db ≡ (db, none)
  unfolding claim_next_job
  claim_none e = ground arith

  -- Claiming takes the job at the head.
  pub claim_pops :
      IsQueue db
      → (id_of (claim_next_job clock db).1, waiting (claim_next_job clock db).0) ≡ pop (waiting db)
  claim_pops q = elim (Option-cases (first (queued_jobs db.jobs))) [
    | inl e ↦
        (let bare = ap ids_of (empty_of (queued_jobs db.jobs) e) in
          ap (λ (r : Db × Option SyncJob). (id_of r.1, waiting r.0))
            (claim_none (next_queued_eq db q ∙ e))
          ∙ ap (λ z. (none, z)) bare
          ∙ sym (ap pop bare))
    | inr (job, e) ↦
        (ap (λ (r : Db × Option SyncJob). (id_of r.1, waiting r.0))
            (claim_some job (next_queued_eq db q ∙ e))
          ∙ sym (ap pop (claim_head clock job db.jobs q.ascending e)))
  ]
