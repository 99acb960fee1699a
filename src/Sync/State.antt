-- ===== src/Sync/State.antt =====
-- sync_control.py: the state table, and the throttle of the maintenance sweeps that it carries.
pub mod Throttle
use yclients_project.Prelude.{
  ℕ, ◌+◌, ◌<◌, ◌≡◌, refl, Bool, true, false, Option, none, some, List, [], ◌∷◌, arith, ltb,
  if◌then◌else◌, is_none, Bool-cases, inl, inr,
}
use yclients_project.Prelude.Text.{Text, text_eq, text_eq_refl}
use yclients_project.Sync.Tables.{Db, SyncState, hours}
use yclients_project.Sync.Parsing.{
  DateTimeText, Value, datetime, text, naive, missing, serialize_dt, parse_datetime,
  parse_datetime-serialize_dt,
}

-- `get_state_values(db, [key]).get(key)`: the value of the row, `none` for a NULL or a missing row.
unfoldable pub get_state_value : Text → List SyncState → Option Text
get_state_value key [] = none
get_state_value key (row ∷ rows) =
    if text_eq row.key key then row.value else get_state_value key rows

-- `db.get` and the write of `set_state`: one row, added when there is none.
put_state : Text → Option Text → ℕ → List SyncState → List SyncState
put_state key value now [] = record { key = key; value = value; updated_at = now } ∷ []
put_state key value now (row ∷ rows) =
    if text_eq row.key key
    then record row { value = value; updated_at = now } ∷ rows
    else row ∷ put_state key value now rows

-- `now or utcnow()`; `clock` is the reading of `utcnow`.
abbrev pub now_or : Option ℕ → ℕ → ℕ
now_or none clock = clock
now_or (some t) clock = t

-- The value handed to `parse_datetime`.
abbrev pub stored : Option Text → Value
stored none = missing
stored (some s) = text s

module _ (py : DateTimeText) where
  unfoldable pub set_state : Text → Value → ℕ → Db → Db
  unfolding put_state
  set_state key value clock db = record db {
    states = put_state key (serialize_dt py value) clock db.states;
  }

  unfoldable pub last_ran_at : Text → Db → Option ℕ
  last_ran_at key db = parse_datetime py (stored (get_state_value key db.states))

  -- `last_at is not None and now - last_at < timedelta(hours=interval_hours)`
  abbrev pub is_throttled : Option ℕ → ℕ → ℕ → Bool
  is_throttled none interval_hours now = false
  is_throttled (some last_at) interval_hours now = ltb now (last_at + hours interval_hours)

  unfoldable pub run_if_due {ℓ} :
      {A : Type ℓ} → Text → ℕ → Option ℕ → ℕ → (ℕ → Db → Db × A) → Db → Db × Option A
  run_if_due key interval_hours now clock sweep db =
      let moment = now_or now clock in
      if is_throttled (last_ran_at key db) interval_hours moment
      then (db, none)
      else (let (swept, result) = sweep moment (set_state key (datetime (naive moment)) clock db) in
          (swept, some result))
