-- ===== src/Sync/Parsing/Days.antt =====
-- sync_parsing.py: the first and the last moment of the day of a value.
use Prim.Native.Nat.{◌/◌}
use yclients_project.Prelude.{ℕ, ◌+◌, ◌≤◌, ◌<◌, ◌≡◌, sym, ap, ◌∙◌, Option, none, some, arith}
use yclients_project.Sync.Parsing.{DateTimeText, Value, parse_datetime, day_start}

abbrev day_of : ℕ → ℕ
day_of t = t / 86400000000

abbrev pub first_moment : ℕ → ℕ
first_moment t = day_start (day_of t)

abbrev pub last_moment : ℕ → ℕ
last_moment t = day_start (day_of t) + 86399999999

abbrev replace_moment : (ℕ → ℕ) → Option ℕ → Option ℕ
replace_moment f none = none
replace_moment f (some t) = some (f t)

module _ (py : DateTimeText) where
  unfoldable pub parse_datetime_start : Value → Option ℕ
  parse_datetime_start value = replace_moment first_moment (parse_datetime py value)

  unfoldable pub parse_datetime_end : Value → Option ℕ
  parse_datetime_end value = replace_moment last_moment (parse_datetime py value)

-- The day of a moment contains it, and both ends are of that day.
day_bounds :
    (t : ℕ)
    → (first_moment t ≤ t) × (t ≤ last_moment t) × (last_moment t < day_start (day_of t + 1))
day_bounds t = (omega arith, omega arith, omega arith)

some_inj : {a b : ℕ} → some a ≡ some b → a ≡ b
some_inj h = cc h

-- A value that is read lies between the start and the end that are read from it.
value_bounds :
    (py : DateTimeText) (value : Value) (t s e : ℕ)
    → parse_datetime py value ≡ some t
    → parse_datetime_start py value ≡ some s
    → parse_datetime_end py value ≡ some e
    → (s ≤ t) × (t ≤ e)
unfolding parse_datetime_start parse_datetime_end
value_bounds py value t s e h a b =
    let first_is : first_moment t ≡ s = some_inj (sym (ap (replace_moment first_moment) h) ∙ a) in
    let last_is : last_moment t ≡ e = some_inj (sym (ap (replace_moment last_moment) h) ∙ b) in
    let (low, high, inside) = day_bounds t in
    (omega (arith, low, first_is), omega (arith, high, last_is))
