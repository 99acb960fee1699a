-- ===== src/Sync/Jobs/Waiting.antt =====
-- sync_jobs.py: what each operation of the queue does to the jobs that wait.
use yclients_project.Prelude.{
  ℕ, ◌+◌, ◌<◌, ◌≡◌, refl, sym, ap, subst, inl, inr, ◌∙◌, true, false, Option, List, [], ◌∷◌, ◌++◌,
  arith, ◌==◌, leb, Bool-cases, Option-cases, IsIn,
}
use yclients_project.Prelude.Rows.{update_where, insert_by}
use yclients_project.Prelude.Text.{Text}
use yclients_project.Sync.Tables.{Db, SyncJob, is_queued}
use yclients_project.Sync.Jobs.{
  enqueue_job, claim_next_job, next_queued, claimed, released, write_job,
}
use yclients_project.Sync.Jobs.Fifo.{
  ids_of, queued_jobs, waiting, IsAbove, IsAscending, IsBelow, IsQueue, IsAbove-select,
  update_above, same_id_lem, claim_some, claim_none,
}

ids_of_last :
    (job : SyncJob) (jobs : List SyncJob) → ids_of (jobs ++ job ∷ []) ≡ ids_of jobs ++ job.id ∷ []
ids_of_last job [] = refl
ids_of_last job (k ∷ jobs) = ap (λ z. k.id ∷ z) (ids_of_last job jobs)

queued_last :
    (job : SyncJob) (jobs : List SyncJob)
    → is_queued job.status ≡ true
    → ids_of (queued_jobs (jobs ++ job ∷ [])) ≡ ids_of (queued_jobs jobs) ++ job.id ∷ []
queued_last job [] q = rw q refl
queued_last job (k ∷ jobs) q = elim (Bool-cases (is_queued k.status)) [
  | inl e ↦ rw (e, queued_last job jobs q) refl
  | inr e ↦ rw (e, queued_last job jobs q) refl
]

insert_ids : (a : ℕ) (xs : List ℕ) → IsAbove a xs → insert_by leb a xs ≡ a ∷ xs
insert_ids a [] h = refl
insert_ids a (x ∷ xs) h = let lower : leb a x ≡ true = ground (arith, h.0) in rw lower refl

released_first :
    (k : SyncJob) (jobs : List SyncJob)
    → IsAbove k.id (ids_of jobs)
    → is_queued k.status ≡ false
    → ids_of (queued_jobs (update_where (λ (j : SyncJob). j.id == k.id) released (k ∷ jobs)))
      ≡ insert_by leb k.id (ids_of (queued_jobs (k ∷ jobs)))
released_first k jobs h q =
    rw (q, same_id_lem k.id, update_above k.id released jobs h)
      (sym (
        insert_ids k.id (ids_of (queued_jobs jobs))
          (IsAbove-select k.id (λ (j : SyncJob). is_queued j.status) jobs h)))

above_in :
    (a : ℕ) (row : SyncJob) (jobs : List SyncJob)
    → IsAbove a (ids_of jobs)
    → IsIn row jobs
    → a < row.id
above_in a row [] h i = absurd i
above_in a row (k ∷ jobs) h (inl e) = omega (arith, h.0, ap (λ (z : SyncJob). z.id) e)
above_in a row (k ∷ jobs) h (inr i) = above_in a row jobs h.1 i

pub released_row :
    (row : SyncJob) (jobs : List SyncJob)
    → IsAscending (ids_of jobs)
    → IsIn row jobs
    → is_queued row.status ≡ false
    → ids_of (queued_jobs (update_where (λ (j : SyncJob). j.id == row.id) released jobs))
      ≡ insert_by leb row.id (ids_of (queued_jobs jobs))
released_row row [] h i q = absurd i
released_row row (k ∷ jobs) h (inl e) q =
    subst
      (λ (z : SyncJob).
        ids_of (queued_jobs (update_where (λ (j : SyncJob). j.id == z.id) released (k ∷ jobs)))
        ≡ insert_by leb z.id (ids_of (queued_jobs (k ∷ jobs))))
      e (released_first k jobs h.0 (ap (λ (z : SyncJob). is_queued z.status) e ∙ q))
released_row row (k ∷ jobs) h (inr i) q =
    let lower = above_in k.id row jobs h.0 i in
    let miss : (k.id == row.id) ≡ false = ground (arith, lower) in
    let later : leb row.id k.id ≡ false = ground (arith, lower) in
    let ih = released_row row jobs h.1 i q in
    elim (Bool-cases (is_queued k.status)) [
      | inl e ↦ rw (miss, e, later, ih) refl
      | inr e ↦ rw (miss, e, ih) refl
    ]

ids_of_update :
    (a : ℕ) (f : SyncJob → SyncJob) (jobs : List SyncJob)
    → ((job : SyncJob) → (f job).id ≡ job.id)
    → ids_of (update_where (λ (j : SyncJob). j.id == a) f jobs) ≡ ids_of jobs
ids_of_update a f [] h = refl
ids_of_update a f (k ∷ jobs) h = elim (Bool-cases (k.id == a)) [
  | inl e ↦ rw (e, h k, ids_of_update a f jobs h) refl
  | inr e ↦ rw (e, ids_of_update a f jobs h) refl
]

pub write_job-IsQueue :
    (a : ℕ) (f : SyncJob → SyncJob) (db : Db)
    → ((job : SyncJob) → (f job).id ≡ job.id)
    → IsQueue db
    → IsQueue (write_job a f db)
write_job-IsQueue a f db h q =
    let same = ids_of_update a f db.jobs h in
    record {
      ascending = subst IsAscending (sym same) q.ascending;
      below = subst (IsBelow db.next_job_id) (sym same) q.below;
    }

last-IsAbove : (a b : ℕ) (xs : List ℕ) → a < b → IsAbove a xs → IsAbove a (xs ++ b ∷ [])
last-IsAbove a b [] l h = (l, tt)
last-IsAbove a b (x ∷ xs) l h = (h.0, last-IsAbove a b xs l h.1)

last-IsAscending :
    (b : ℕ) (xs : List ℕ) → IsAscending xs → IsBelow b xs → IsAscending (xs ++ b ∷ [])
last-IsAscending b [] h l = (tt, tt)
last-IsAscending b (x ∷ xs) h l = (last-IsAbove x b xs l.0 h.0, last-IsAscending b xs h.1 l.1)

last-IsBelow : (b : ℕ) (xs : List ℕ) → IsBelow b xs → IsBelow (b + 1) (xs ++ b ∷ [])
last-IsBelow b [] l = (omega arith, tt)
last-IsBelow b (x ∷ xs) l = (omega (arith, l.0), last-IsBelow b xs l.1)

module _ (clock : ℕ) (mode : Option Text) (initiator : Text) (account credential : Option ℕ)
    (companies : Option (List ℕ)) where
  abbrev pub enqueued : Db → Db
  enqueued db = (enqueue_job clock mode initiator account credential companies db).0

  pub enqueued-IsQueue : (db : Db) → IsQueue db → IsQueue (enqueued db)
  unfolding enqueue_job
  enqueued-IsQueue db q =
      let job = (enqueue_job clock mode initiator account credential companies db).1 in
      let same = ids_of_last job db.jobs in
      record {
        ascending =
            subst IsAscending (sym same)
              (last-IsAscending db.next_job_id (ids_of db.jobs) q.ascending q.below);
        below =
            subst (IsBelow (db.next_job_id + 1)) (sym same)
              (last-IsBelow db.next_job_id (ids_of db.jobs) q.below);
      }

  pub enqueue_appends : (db : Db) → waiting (enqueued db) ≡ waiting db ++ db.next_job_id ∷ []
  unfolding enqueue_job
  enqueue_appends db =
      queued_last (enqueue_job clock mode initiator account credential companies db).1 db.jobs refl

pub claim-IsQueue : (clock : ℕ) (db : Db) → IsQueue db → IsQueue (claim_next_job clock db).0
claim-IsQueue clock db q = elim (Option-cases (next_queued db)) [
  | inl e ↦ rw (claim_none clock db e) q
  | inr (job, e) ↦
      rw (claim_some clock db job e) (write_job-IsQueue job.id (claimed clock) db (λ j. refl) q)
]
