-- ===== src/Sync/State/Throttle.antt =====
-- sync_control.py: the state table under `set_state`, and how `run_if_due` spaces its sweeps.
use yclients_project.Prelude.{
  ℕ, ◌+◌, ◌<◌, ◌≡◌, refl, ap, sym, ◌∙◌, false, Option, none, some, List, [], ◌∷◌, arith,
  if◌then◌else◌, Bool-cases, inl, inr,
}
use yclients_project.Prelude.Text.{Text, text_eq, text_eq_refl, text_eq_comm, text_eq_congr}
use yclients_project.Sync.Tables.{Db, SyncState, hours}
use yclients_project.Sync.Parsing.{
  DateTimeText, Value, datetime, naive, serialize_dt, parse_datetime-serialize_dt,
}
use yclients_project.Sync.State.{
  get_state_value, put_state, set_state, last_ran_at, is_throttled, run_if_due,
}

get-put_state :
    (k key : Text) (value : Option Text) (now : ℕ) (rows : List SyncState)
    → get_state_value k (put_state key value now rows)
      ≡ (if text_eq key k then value else get_state_value k rows)
unfolding get_state_value put_state
get-put_state k key value now [] = refl
get-put_state k key value now (row ∷ rows) = elim (Bool-cases (text_eq row.key key)) [
  | inl e ↦ rw e (ground (arith, text_eq_congr row.key key k e))
  | inr e ↦ rw e (
      ground (
        arith,
        get-put_state k key value now rows,
        text_eq_congr row.key k key,
        text_eq_comm key k,
      ))
]

module _ (py : DateTimeText) where
  -- A moment that was stored is the moment at which the sweep is known to have run.
  pub last_ran_at-set_state :
      (key : Text) (t clock : ℕ) (db : Db)
      → last_ran_at py key (set_state py key (datetime (naive t)) clock db) ≡ some t
  unfolding last_ran_at set_state serialize_dt
  last_ran_at-set_state key t clock db =
      rw (get-put_state key key (some (py.isoformat (naive t))) clock db.states)
        (rw (text_eq_refl key) (parse_datetime-serialize_dt py t (py.isoformat (naive t)) refl))

  module _ {A : Type 0} (key : Text) (interval_hours : ℕ) where
    -- A sweep that is due is run once, on a database in which the attempt is already recorded.
    pub run_if_due_due :
        (sweep : ℕ → Db → Db × A) (t clock : ℕ) (db : Db)
        → is_throttled py (last_ran_at py key db) interval_hours t ≡ false
        → (marked : Db) × (last_ran_at py key marked ≡ some t)
          × (marked.jobs ≡ db.jobs)
          × (marked.runs ≡ db.runs)
          × (run_if_due py key interval_hours (some t) clock sweep db
              ≡ ((sweep t marked).0, some (sweep t marked).1))
    unfolding run_if_due
    run_if_due_due sweep t clock db h = (
      set_state py key (datetime (naive t)) clock db,
      last_ran_at-set_state key t clock db,
      unfold set_state in refl,
      unfold set_state in refl,
      rw h,
    )

    last_ran_at_after :
        (sweep : ℕ → Db → Db × A) (t clock : ℕ) (db after : Db) (result : A)
        → ((m : ℕ) (d : Db) → last_ran_at py key (sweep m d).0 ≡ last_ran_at py key d)
        → run_if_due py key interval_hours (some t) clock sweep db ≡ (after, some result)
        → last_ran_at py key after ≡ some t
    unfolding run_if_due
    last_ran_at_after sweep t clock db after result keeps ran =
        elim (Bool-cases (is_throttled py (last_ran_at py key db) interval_hours t)) [
          | inl e ↦ cc (ran, e)
          | inr e ↦
              (let marked : Db = set_state py key (datetime (naive t)) clock db in
                let q : (sweep t marked).0 ≡ after =
                  ap (λ (r : Db × Option A). r.0) (rw e at ran) in
                ap (last_ran_at py key) (sym q)
                ∙ keeps t marked
                ∙ last_ran_at-set_state key t clock db)
        ]

    -- After a sweep at `t`, which leaves its own state key alone, a call less than the interval
    -- after `t` skips its sweep, whatever that is, and changes nothing.
    pub run_if_due_twice :
        (sweep again : ℕ → Db → Db × A) (t u clock later : ℕ) (db after : Db) (result : A)
        → ((m : ℕ) (d : Db) → last_ran_at py key (sweep m d).0 ≡ last_ran_at py key d)
        → run_if_due py key interval_hours (some t) clock sweep db ≡ (after, some result)
        → u < t + hours interval_hours
        → run_if_due py key interval_hours (some u) later again after ≡ (after, none)
    unfolding run_if_due
    run_if_due_twice sweep again t u clock later db after result keeps ran soon =
        rw (last_ran_at_after sweep t clock db after result keeps ran) (ground arith)

-- A reader of another key sees what it saw before.
pub get_state_value-set_state :
    (py : DateTimeText) (k key : Text) (value : Value) (clock : ℕ) (db : Db)
    → text_eq key k ≡ false
    → get_state_value k (set_state py key value clock db).states ≡ get_state_value k db.states
unfolding set_state
get_state_value-set_state py k key value clock db h =
    rw (get-put_state k key (serialize_dt py value) clock db.states) (rw h)
