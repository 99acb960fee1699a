-- ===== src/Sync/AutoEnqueue/Tenants.antt =====
-- sync_worker.py: one tenant of the loop, and what an enqueued job changes for it and for the others.
use yclients_project.Prelude.{
  ℕ, ◌+◌, ◌≡◌, refl, ap, ◌∙◌, Bool, true, false, none, some, List, [], ◌∷◌, ◌++◌, if◌then◌else◌,
  Bool-cases, inl, inr, IsIn, append-IsIn_last, ◌==◌, ==_refl, ==_iff, same_id, is_some,
}
use mathlib.Core.List.{append-nil}
use yclients_project.Prelude.Rows.{select, first-some, select-IsIn}
use yclients_project.Prelude.Text.{codes}
use yclients_project.Sync.Tables.{Db, SyncJob}
use yclients_project.Sync.Jobs.{
  enqueue_job, new_queued_job, is_active, scoped_query, get_active_job, get_latest_job,
  active_before,
}
use yclients_project.Sync.Jobs.Queue.{active_before-IsOrder}
use yclients_project.Sync.AutoEnqueue.{is_skipped, auto_job, enqueue_tenants}

select-append :
    {A : Type 0} (p : A → Bool) (xs ys : List A) → select p (xs ++ ys) ≡ select p xs ++ select p ys
select-append p [] ys = refl
select-append p (x ∷ xs) ys = elim (Bool-cases (p x)) [
  | inl e ↦ rw e (ap (λ z. x ∷ z) (select-append p xs ys))
  | inr e ↦ rw e (select-append p xs ys)
]

abbrev new_job : ℕ → ℕ → Db → SyncJob
new_job clock account db =
    new_queued_job db.next_job_id clock (some (codes "incremental")) (codes "auto-worker")
      (some account) none none

-- The rows of another tenant stay as they are.
scoped-other :
    (clock a b : ℕ) (db : Db)
    → (b == a) ≡ false
    → scoped_query (some a) (auto_job clock b db).jobs ≡ scoped_query (some a) db.jobs
unfolding enqueue_job
scoped-other clock a b db h =
    select-append (λ job. same_id job.portal_account_id (some a)) db.jobs (new_job clock b db ∷ [])
    ∙ rw h (append-nil _)

is_skipped-other :
    (interval now clock a b : ℕ) (db : Db)
    → (b == a) ≡ false
    → is_skipped interval now a (auto_job clock b db) ≡ is_skipped interval now a db
unfolding is_skipped get_active_job get_latest_job
is_skipped-other interval now clock a b db h = rw (scoped-other clock a b db h)

get_active_job-IsIn :
    (account : ℕ) (job : SyncJob) (db : Db)
    → IsIn job db.jobs
    → job.portal_account_id ≡ some account
    → is_active job.status ≡ true
    → is_some (get_active_job (some account) db) ≡ true
unfolding get_active_job
get_active_job-IsIn account job db i e h =
    let mine : IsIn job (scoped_query (some account) db.jobs) =
      select-IsIn (λ z. same_id z.portal_account_id (some account)) job db.jobs i
        (rw e (==_refl account)) in
    let (found, q) =
      first-some active_before active_before-IsOrder job
        (select (λ z. is_active z.status) (scoped_query (some account) db.jobs))
        (select-IsIn (λ z. is_active z.status) job (scoped_query (some account) db.jobs) mine h) in
    rw q

-- A tenant that was given a job is skipped from then on.
is_skipped_self :
    (interval now clock a : ℕ) (db : Db) → is_skipped interval now a (auto_job clock a db) ≡ true
unfolding is_skipped
is_skipped_self interval now clock a db = rw (
    get_active_job-IsIn a (new_job clock a db) (auto_job clock a db)
      (unfold enqueue_job in append-IsIn_last (new_job clock a db) db.jobs) refl refl)

-- Once skipped, a tenant stays skipped whichever tenant is given a job next.
pub is_skipped-auto_job :
    (interval now clock a b : ℕ) (db : Db)
    → is_skipped interval now a db ≡ true
    → is_skipped interval now a (auto_job clock b db) ≡ true
is_skipped-auto_job interval now clock a b db h = elim (Bool-cases (b == a)) [
  | inl e ↦ rw ((==_iff b a).0 e) (is_skipped_self interval now clock a db)
  | inr e ↦ is_skipped-other interval now clock a b db e ∙ h
]

pub is_skipped_step :
    (interval now clock a : ℕ) (db : Db)
    → is_skipped interval now a (if is_skipped interval now a db then db else auto_job clock a db)
      ≡ true
is_skipped_step interval now clock a db = elim (Bool-cases (is_skipped interval now a db)) [
  | inl e ↦ rw e e
  | inr e ↦ rw e (is_skipped_self interval now clock a db)
]

is_skipped_kept :
    (interval now clock a b : ℕ) (db : Db)
    → is_skipped interval now a db ≡ true
    → is_skipped interval now a (if is_skipped interval now b db then db else auto_job clock b db)
      ≡ true
is_skipped_kept interval now clock a b db h = elim (Bool-cases (is_skipped interval now b db)) [
  | inl e ↦ rw e h
  | inr e ↦ rw e (is_skipped-auto_job interval now clock a b db h)
]

enqueue_tenants-kept :
    (interval now clock a : ℕ) (accounts : List ℕ) (n m : ℕ) (db : Db)
    → is_skipped interval now a db ≡ true
    → is_skipped interval now a (enqueue_tenants interval now clock accounts n m db).0 ≡ true
unfolding enqueue_tenants
enqueue_tenants-kept interval now clock a [] n m db h = h
enqueue_tenants-kept interval now clock a (b ∷ bs) n m db h =
    enqueue_tenants-kept interval now clock a bs _ _ _ (is_skipped_kept interval now clock a b db h)

-- After the loop every tenant on the list has an active job or recent activity.
pub enqueue_tenants_all :
    (interval now clock : ℕ) (accounts : List ℕ) (n m : ℕ) (db : Db) (a : ℕ)
    → IsIn a accounts
    → is_skipped interval now a (enqueue_tenants interval now clock accounts n m db).0 ≡ true
unfolding enqueue_tenants
enqueue_tenants_all interval now clock [] n m db a i = absurd i
enqueue_tenants_all interval now clock (b ∷ bs) n m db a (inl e) =
    enqueue_tenants-kept interval now clock a bs _ _ _
      (rw (← e) (is_skipped_step interval now clock b db))
enqueue_tenants_all interval now clock (b ∷ bs) n m db a (inr i) =
    enqueue_tenants_all interval now clock bs _ _ _ a i

skipped_head :
    (interval now clock b : ℕ) (bs : List ℕ) (n m : ℕ) (db : Db)
    → is_skipped interval now b db ≡ true
    → enqueue_tenants interval now clock (b ∷ bs) n m db
      ≡ enqueue_tenants interval now clock bs n (m + 1) db
unfolding enqueue_tenants
skipped_head interval now clock b bs n m db h =
    ap
      (λ s.
        enqueue_tenants interval now clock bs (if s then n else n + 1) (if s then m + 1 else m)
          (if s then db else auto_job clock b db))
      h

-- A loop over tenants that are all skipped writes nothing.
pub enqueue_tenants_idle :
    (interval now clock : ℕ) (accounts : List ℕ) (n m : ℕ) (db : Db)
    → ((a : ℕ) → IsIn a accounts → is_skipped interval now a db ≡ true)
    → ((enqueue_tenants interval now clock accounts n m db).0 ≡ db)
      × ((enqueue_tenants interval now clock accounts n m db).1 ≡ n)
unfolding enqueue_tenants
enqueue_tenants_idle interval now clock [] n m db h = (refl, refl)
enqueue_tenants_idle interval now clock (b ∷ bs) n m db h =
    let (same, none_added) =
      enqueue_tenants_idle interval now clock bs n (m + 1) db (λ a i. h a (inr i)) in
    let e : enqueue_tenants interval now clock (b ∷ bs) n m db
        ≡ enqueue_tenants interval now clock bs n (m + 1) db =
      skipped_head interval now clock b bs n m db (h b (inl refl)) in
    (ap (λ r. r.0) e ∙ same, ap (λ r. r.1) e ∙ none_added)
