-- ===== src/Portal/Staff/Serving.antt =====
-- portal_staff_sync.py: the ways to serve one target branch, and what a later state of a row keeps.
use yclients_project.Prelude.{
  ℕ, ◌≡◌, refl, sym, subst, ◌∙◌, Bool, true, false, none, some, List, [], ◌∷◌, arith, inl, inr,
  IsIn, Bool-cases, Option-cases, any,
}
use yclients_project.Prelude.Rows.{select, IsIn-select, order_by, IsIn-order_by}
use yclients_project.Auth.Sessions.{User}
use yclients_project.Portal.Ownership.{holds}
use yclients_project.Portal.Staff.{
  Staff, is_mirror_row, is_crm_row, is_own_mirror, add_portal_staff, sorts_before, last, by_company,
  write_staff, as_bookable, as_mirror, serve_company, staff_display_name,
}
use yclients_project.Auth.Tenancy.{role_text}

-- The same row but for `bookable`.
pub record SameStaff (a b : Staff) : Type 0 where
  pub id : a.id ≡ b.id
  pub external_id : a.external_id ≡ b.external_id
  pub source_type : a.source_type ≡ b.source_type
  pub name : a.name ≡ b.name
  pub position : a.position ≡ b.position
  pub company_id : a.company_id ≡ b.company_id
  pub portal_user_id : a.portal_user_id ≡ b.portal_user_id
  pub fired : a.fired ≡ b.fired

pub self-SameStaff : (a : Staff) → SameStaff a a
self-SameStaff a = record {
  id = refl;
  external_id = refl;
  source_type = refl;
  name = refl;
  position = refl;
  company_id = refl;
  portal_user_id = refl;
  fired = refl;
}

pub bookable-SameStaff : (a b : Staff) → SameStaff a b → SameStaff (as_bookable a) b
bookable-SameStaff a b s = record {
  id = s.id;
  external_id = s.external_id;
  source_type = s.source_type;
  name = s.name;
  position = s.position;
  company_id = s.company_id;
  portal_user_id = s.portal_user_id;
  fired = s.fired;
}

last-IsIn : (row : Staff) (rows : List Staff) → last rows ≡ some row → IsIn row rows
last-IsIn row [] h = cc
last-IsIn row (r ∷ rows) h = elim (Option-cases (last rows)) [
  | inl e ↦ inl (cc (rw e at h))
  | inr (other, e) ↦ inr (last-IsIn row rows (e ∙ rw e at h))
]

-- The row that stands for a branch is a row of the branch.
pub by_company-IsIn :
    (user_id company : ℕ) (linked : List Staff) (row : Staff)
    → by_company user_id linked company ≡ some row
    → IsIn row linked × (holds row.company_id company ≡ true)
unfolding by_company
by_company-IsIn user_id company linked row h =
    let of_company : Staff → Bool = λ (r : Staff). holds r.company_id company in
    let (i, e) =
      IsIn-select of_company row (order_by (sorts_before user_id) linked)
        (last-IsIn row (select of_company (order_by (sorts_before user_id) linked)) h) in
    (IsIn-order_by (sorts_before user_id) row linked i, e)

pub own_mirror_lem :
    (user_id : ℕ) (row : Staff)
    → holds row.portal_user_id user_id ≡ true
    → is_crm_row user_id row ≡ false
    → is_own_mirror user_id row ≡ true
own_mirror_lem user_id row h e = ground arith

pub mirror_same : (a b : Staff) → SameStaff a b → is_mirror_row a ≡ is_mirror_row b
unfolding is_mirror_row
mirror_same a b s = rw (s.source_type, s.portal_user_id, s.external_id) refl

pub crm_same :
    (user_id : ℕ) (a b : Staff) → SameStaff a b → is_crm_row user_id a ≡ is_crm_row user_id b
crm_same user_id a b s = rw (mirror_same a b s, s.portal_user_id) refl

pub any_some :
    (p : Staff → Bool) (rows : List Staff)
    → any p rows ≡ true
    → (r : Staff) × IsIn r rows × (p r ≡ true)
any_some p [] h = cc
any_some p (r ∷ rows) h = elim (Bool-cases (p r)) [
  | inl e ↦ (r, inl refl, e)
  | inr e ↦ let (x, i, f) = any_some p rows (rw e at h) in (x, inr i, f)
]

-- What one branch does.
module _ (user : User) (linked : List Staff) (company : ℕ) (rows : List Staff) where
  pub serve_none :
      by_company user.id linked company ≡ none
      → serve_company user linked company rows
        ≡ add_portal_staff (staff_display_name user) (role_text user.role) company user.id rows
  unfolding serve_company
  serve_none e = ground arith

  pub serve_crm :
      (chosen : Staff)
      → by_company user.id linked company ≡ some chosen
      → is_crm_row user.id chosen ≡ true
      → serve_company user linked company rows ≡ write_staff chosen.id as_bookable rows
  unfolding serve_company
  serve_crm chosen e h = ground arith

  pub serve_mirror :
      (chosen : Staff)
      → by_company user.id linked company ≡ some chosen
      → is_crm_row user.id chosen ≡ false
      → serve_company user linked company rows
        ≡ write_staff chosen.id (as_mirror (staff_display_name user) (role_text user.role)) rows
  unfolding serve_company
  serve_mirror chosen e h = ground arith

  pub data Served : List Staff → Type 0 where
    added :
        by_company user.id linked company ≡ none
        → Served
            (add_portal_staff (staff_display_name user) (role_text user.role) company user.id rows)
    of_crm :
        (chosen : Staff)
        → by_company user.id linked company ≡ some chosen
        → is_crm_row user.id chosen ≡ true
        → Served (write_staff chosen.id as_bookable rows)
    of_mirror :
        (chosen : Staff)
        → by_company user.id linked company ≡ some chosen
        → is_crm_row user.id chosen ≡ false
        → Served
            (write_staff chosen.id (as_mirror (staff_display_name user) (role_text user.role)) rows)

  -- The three ways to serve a branch.
  pub served : Served (serve_company user linked company rows)
  served = elim (Option-cases (by_company user.id linked company)) [
    | inl e ↦ subst Served (sym (serve_none e)) (added e)
    | inr (chosen, e) ↦ elim (Bool-cases (is_crm_row user.id chosen)) [
      | inl h ↦ subst Served (sym (serve_crm chosen e h)) (of_crm chosen e h)
      | inr h ↦ subst Served (sym (serve_mirror chosen e h)) (of_mirror chosen e h)
    ]
  ]
