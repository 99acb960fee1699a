-- ===== src/Tests/Staff.antt =====
-- The staff rows of one barber, and the theorems of Portal.Staff at them.
use yclients_project.Prelude.{
  Bool-cases, ℕ, ◌≡◌, ◌⊎◌, refl, sym, ap, subst, ◌∙◌, inl, inr, arith, true, false, some, List, [],
  ◌∷◌, IsIn,
}
use yclients_project.Prelude.Keyed.{IsKeyed}
use yclients_project.Prelude.Text.{codes, strip}
use yclients_project.Auth.{barber}
use yclients_project.Auth.Sessions.{User}
use yclients_project.Portal.Staff.{
  Staff, is_mirror_row, is_crm_row, is_own_mirror, is_user_of, sync_all_portal_users_staff,
  sync_linked, portal_staff, portal_user_syncs_to_staff, by_company, serve_company, serve_companies,
  add_portal_staff, next_staff_id, retire_rows, staff_display_name, sync_portal_user_staff,
}
use yclients_project.Portal.Staff.Serving.{SameStaff}
use yclients_project.Portal.Staff.Kept.{sync_all_keeps_others}
use yclients_project.Portal.Staff.Live.{sync_serves}
use yclients_project.Portal.Staff.Outside.{sync_fires_rest}
use yclients_project.Tests.Sessions.{holder}

abbrev clerk : User
clerk = record holder { id = 9; role = barber }

abbrev crm_row : Staff
crm_row = record {
  id = 1;
  external_id = some 55;
  source_type = codes "yclients";
  name = codes "Ann";
  position = codes "top";
  company_id = some 10;
  portal_user_id = some 9;
  fired = 1;
  bookable = false;
}

abbrev mirror : Staff
mirror = portal_staff 2 (codes "Ann") (codes "barber") 20 9

abbrev table : List Staff
table = crm_row ∷ mirror ∷ []

table-IsKeyed : IsKeyed (λ (r : Staff). r.id) table
table-IsKeyed a b (inl p) (inl q) e = sym p ∙ q
table-IsKeyed a b (inl p) (inr (inl q)) e =
    ground (arith, ap (λ (r : Staff). r.id) p, ap (λ (r : Staff). r.id) q)
table-IsKeyed a b (inl p) (inr (inr j)) e = absurd j
table-IsKeyed a b (inr (inl p)) (inl q) e =
    ground (arith, ap (λ (r : Staff). r.id) p, ap (λ (r : Staff). r.id) q)
table-IsKeyed a b (inr (inl p)) (inr (inl q)) e = sym p ∙ q
table-IsKeyed a b (inr (inl p)) (inr (inr j)) e = absurd j
table-IsKeyed a b (inr (inr i)) j e = absurd i

crm_row_lem : is_crm_row 9 crm_row ≡ true
unfolding is_mirror_row
crm_row_lem = refl

foreign_row :
    (user : User)
    → IsIn user (clerk ∷ [])
    → is_user_of (some 1) user ≡ true
    → portal_user_syncs_to_staff user ≡ true
    → is_own_mirror user.id crm_row ≡ false
unfolding is_mirror_row
foreign_row user i member syncs = elim (Bool-cases (is_own_mirror user.id crm_row)) [
  | inr e ↦ e
  | inl e ↦ ground arith
]

sync_all_keeps_others_example :
    (r : Staff) × IsIn r (sync_all_portal_users_staff (some 1) (clerk ∷ []) [] table)
    × SameStaff r crm_row
sync_all_keeps_others_example =
    sync_all_keeps_others table table-IsKeyed crm_row (inl refl) (some 1) (clerk ∷ []) []
      foreign_row

sync_serves_example :
    (r : Staff) × IsIn r (sync_portal_user_staff clerk (30 ∷ []) table)
    × (r.portal_user_id ≡ some 9)
    × (r.company_id ≡ some 30)
    × ((r.fired ≡ 0) ⊎ (is_crm_row 9 r ≡ true))
unfolding portal_user_syncs_to_staff
sync_serves_example = sync_serves clerk table 30 (30 ∷ []) refl (inl refl)

abbrev added : Staff
added = portal_staff 3 (codes "Ann") (codes "barber") 30 9

table_after :
    sync_portal_user_staff clerk (30 ∷ []) table
    ≡ crm_row ∷ record mirror { fired = 1 } ∷ added ∷ []
unfolding sync_portal_user_staff sync_linked portal_user_syncs_to_staff serve_companies
    serve_company by_company add_portal_staff next_staff_id staff_display_name retire_rows
    is_mirror_row strip
table_after = refl

abbrev retired : Staff
retired = record mirror { fired = 1 }

retired_there : IsIn retired (sync_portal_user_staff clerk (30 ∷ []) table)
retired_there = subst (IsIn (record mirror { fired = 1 })) (sym table_after) (inr (inl refl))

sync_fires_rest_example :
    (retired.fired ≡ 1)
    ⊎ ((portal_user_syncs_to_staff clerk ≡ true)
        × ((company : ℕ) × (retired.company_id ≡ some company) × IsIn company (30 ∷ [])))
unfolding is_mirror_row
sync_fires_rest_example = sync_fires_rest clerk table (30 ∷ []) retired retired_there refl
