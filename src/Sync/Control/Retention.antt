-- ===== src/Sync/Control/Retention.antt =====
-- sync_control.py: which runs `purge_old_runs` keeps.
use yclients_project.Prelude.{
  ℕ, ◌+◌, ◌<◌, ◌⊎◌, ◌≡◌, ◌≢◌, refl, sym, ap, ◌∙◌, true, false, not, some, arith, Bool-cases, inl,
  inr, IsIn, leb, elem, elem→IsIn, IsIn-map,
}
use yclients_project.Prelude.Keyed.{IsKeyed}
use yclients_project.Prelude.Rows.{
  select, IsOrder, first-order_by, first-same, IsIn-select, select-IsIn,
}
use yclients_project.Sync.Tables.{Db, SyncRun, run_is_running, days}
use yclients_project.Sync.Control.{
  run_newer, get_latest_run, is_stale_run, stale_run_ids, purge_old_runs,
}

abbrev pub run_key : SyncRun → ℕ
run_key run = run.id

pub run_newer-IsOrder : IsOrder run_newer
run_newer-IsOrder = record { total = λ a b h. ground arith; trans = λ a b c h k. ground arith }

module _ (retention_days now clock : ℕ) (db : Db) (keyed : IsKeyed run_key db.runs) where
  stale_run :
      (run : SyncRun)
      → IsIn run db.runs
      → elem run.id (stale_run_ids retention_days now db) ≡ true
      → is_stale_run retention_days now (get_latest_run db) run ≡ true
  unfolding stale_run_ids
  stale_run run i h =
      let stale = is_stale_run retention_days now (get_latest_run db) in
      let (other, j, e) = IsIn-map run_key run.id (select stale db.runs) (elem→IsIn run.id _ h) in
      let (k, p) = IsIn-select stale other db.runs j in ap stale (sym (keyed other run k i e)) ∙ p

  not_latest :
      (run latest : SyncRun)
      → is_stale_run retention_days now (get_latest_run db) run ≡ true
      → get_latest_run db ≡ some latest
      → latest ≢ run
  not_latest run latest h e q =
      let p : is_stale_run retention_days now (some latest) run ≡ true = rw e at h in
      ground (arith, ap run_key q)

  -- With distinct ids, every run stays, but for those that are not running, started before the
  -- retention window and are not the latest run.
  pub purge_old_runs_lem :
      (run : SyncRun)
      → IsIn run db.runs
      → IsIn run (purge_old_runs retention_days (some now) clock db).0.runs
        ⊎ ((run_is_running run.status ≡ false)
            × (run.started_at + days retention_days < now)
            × ((latest : SyncRun) → get_latest_run db ≡ some latest → latest ≢ run))
  unfolding purge_old_runs
  purge_old_runs_lem run i = elim (Bool-cases (leb retention_days 0)) [
    | inl e ↦ inl (rw e i)
    | inr e ↦ elim (Bool-cases (elem run.id (stale_run_ids retention_days now db))) [
      | inl gone ↦ inr (
        ground (arith, stale_run run i gone),
        ground (arith, stale_run run i gone),
        λ latest. not_latest run latest (stale_run run i gone),
      )
      | inr kept ↦ inl (
          rw e (
            select-IsIn (λ r. not (elem r.id (stale_run_ids retention_days now db))) run db.runs i
              (rw kept)))
    ]
  ]

  swept-sub :
      (run : SyncRun)
      → IsIn run (purge_old_runs retention_days (some now) clock db).0.runs
      → IsIn run db.runs
  unfolding purge_old_runs
  swept-sub run i = elim (Bool-cases (leb retention_days 0)) [
    | inl e ↦ rw e at i
    | inr e ↦ (IsIn-select _ run db.runs (rw e at i)).0
  ]

  -- With distinct ids, the status payload names the same last run before and after the sweep,
  -- however old it is.
  pub get_latest_run-purge :
      get_latest_run (purge_old_runs retention_days (some now) clock db).0 ≡ get_latest_run db
  get_latest_run-purge =
      unfold get_latest_run in
      first-same run_newer run_newer-IsOrder db.runs
        (purge_old_runs retention_days (some now) clock db).0.runs swept-sub
        (λ x e.
          elim (purge_old_runs_lem x (first-order_by run_newer run_newer-IsOrder x db.runs e).0) [
            | inl kept ↦ kept
            | inr (_, _, other) ↦ absurd (other x e refl)
          ])
        (λ x y i j a b. keyed y x j i (ground arith))
