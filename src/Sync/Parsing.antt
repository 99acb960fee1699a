-- ===== src/Sync/Parsing.antt =====
-- sync_parsing.py: the values of the state table, and the texts that stand for moments.
pub mod Days
use mathlib.Core.Bool.{false≢true}
use yclients_project.Prelude.{
  is_empty, ℕ, ◌*◌, ◌≡◌, ◌≢◌, refl, sym, ap, ◌∙◌, inl, inr, Bool-cases, true, false, not, ◌&&◌,
  ◌||◌, Option, none, some, [], ◌∷◌, arith, if◌then◌else◌, take, all,
}
use yclients_project.Prelude.Text.{
  Text, codes, text_eq, text_eq→≡, is_space, strip, strip_lem, has_char, replace_all,
  replace_all_lem, replace_first,
}

-- A Python datetime: naive, or aware with its reading in UTC.
pub data DateTime : Type 0 where
  naive : ℕ → DateTime
  aware : ℕ → DateTime

pub data Value : Type 0 where
  missing : Value
  text : Text → Value
  datetime : DateTime → Value
  date : ℕ → Value

-- The readers and printers of Python's datetime module. `none` is a ValueError. A printed naive
-- moment holds a `T`, no white space and no `Z`, and is read back.
pub record DateTimeText : Type 0 where
  pub isoformat : DateTime → Text
  pub date_isoformat : ℕ → Text
  pub fromisoformat : Text → Option DateTime
  pub date_fromisoformat : Text → Option ℕ
  pub isoformat_no_space : (t : ℕ) → all (λ c. not (is_space c)) (isoformat (naive t)) ≡ true
  pub isoformat_no_zone : (t : ℕ) → has_char 90 (isoformat (naive t)) ≡ false
  pub isoformat_has_mark : (t : ℕ) → has_char 84 (isoformat (naive t)) ≡ true
  pub fromisoformat-isoformat : (t : ℕ) → fromisoformat (isoformat (naive t)) ≡ some (naive t)

abbrev pub to_utc : DateTime → ℕ
to_utc (naive t) = t
to_utc (aware t) = t

abbrev pub day_start : ℕ → ℕ
day_start d = d * 86400000000

zeros_lem : (s : Text) → has_char 84 s ≡ true → s ≢ codes "0000-00-00 00:00:00"
zeros_lem s h e = false≢true (sym (ap (has_char 84) e) ∙ h)

-- A text with a `T` in it is none of those that stand for a missing moment.
has_mark-ne :
    (s : Text)
    → has_char 84 s ≡ true
    → (is_empty s ≡ false) × (text_eq s (codes "0000-00-00 00:00:00") ≡ false)
has_mark-ne [] h = cc
has_mark-ne (c ∷ s) h = elim (Bool-cases (text_eq (c ∷ s) (codes "0000-00-00 00:00:00"))) [
  | inl e ↦ absurd (zeros_lem (c ∷ s) h (text_eq→≡ (c ∷ s) (codes "0000-00-00 00:00:00") e))
  | inr e ↦ (refl, e)
]

module _ (py : DateTimeText) where
  unfoldable pub serialize_dt : Value → Option Text
  serialize_dt missing = none
  serialize_dt (text s) = some s
  serialize_dt (datetime d) = some (py.isoformat d)
  serialize_dt (date d) = some (py.date_isoformat d)

  -- The text branch of `parse_date`.
  unfoldable pub parse_date_text : Text → Option ℕ
  parse_date_text value =
      if is_empty value || text_eq value (codes "0000-00-00")
      then none
      else (let s = strip value in if is_empty s then none else py.date_fromisoformat (take 10 s))

  unfoldable pub normalize_text : Text → Text
  normalize_text s =
      if not (has_char 84 s) && has_char 32 s
      then replace_first 32 (codes "T") (replace_all 90 (codes "+00:00") s)
      else replace_all 90 (codes "+00:00") s

  parse_stripped : Text → Option ℕ
  parse_stripped s = elim (py.fromisoformat (normalize_text s)) [
    | some d ↦ some (to_utc d)
    | none ↦ elim (parse_date_text s) [ some d ↦ some (day_start d) | none ↦ none ]
  ]

  unfoldable pub parse_datetime : Value → Option ℕ
  unfolding parse_stripped
  parse_datetime missing = none
  parse_datetime (datetime d) = some (to_utc d)
  parse_datetime (date d) = some (day_start d)
  parse_datetime (text value) =
      if is_empty value || text_eq value (codes "0000-00-00 00:00:00")
      then none
      else (let s = strip value in if is_empty s then none else parse_stripped s)

  normalize_text_lem :
      (s : Text) → has_char 90 s ≡ false → has_char 84 s ≡ true → normalize_text s ≡ s
  unfolding normalize_text
  normalize_text_lem s b c = rw c (replace_all_lem 90 (codes "+00:00") s b)

  -- Storing a moment in the state table and reading it back gives the same moment.
  pub parse_datetime-serialize_dt :
      (t : ℕ) (s : Text)
      → serialize_dt (datetime (naive t)) ≡ some s
      → parse_datetime (text s) ≡ some t
  unfolding serialize_dt parse_datetime
  parse_datetime-serialize_dt t s h =
      let e : py.isoformat (naive t) ≡ s = cc in
      rw (← e) (
        ground (
          arith,
          has_mark-ne (py.isoformat (naive t)) (py.isoformat_has_mark t),
          strip_lem (py.isoformat (naive t)) (py.isoformat_no_space t),
          normalize_text_lem (py.isoformat (naive t)) (py.isoformat_no_zone t)
              (py.isoformat_has_mark t),
          py.fromisoformat-isoformat t,
        ))
