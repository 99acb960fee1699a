-- ===== src/Portal/Staff/Kept.antt =====
-- portal_staff_sync.py: the rows that a synchronization of users leaves alone.
use yclients_project.Prelude.{
  leb, ℕ, Option, ◌≡◌, ◌≢◌, refl, sym, ap, ◌∙◌, Bool, true, false, not, ◌&&◌, ◌||◌, some, List, [],
  ◌∷◌, arith, inl, inr, ◌==◌, IsIn, Bool-cases, append-IsIn_left, any, is_empty,
}
use yclients_project.Prelude.Rows.{
  select, IsIn-select, order_by, IsIn-order_by, update-IsIn_hit, update-IsIn_miss,
}
use yclients_project.Prelude.Keyed.{IsKeyed}
use yclients_project.Auth.Sessions.{User}
use yclients_project.Portal.Ownership.{holds}
use yclients_project.Portal.Staff.{
  Staff, is_crm_row, is_own_mirror, add_portal_staff, linked_to, by_company, as_bookable, as_mirror,
  as_fired, serve_company, serve_companies, is_retired, retire_rows, fire_mirrors, target_companies,
  portal_user_syncs_to_staff, staff_display_name, sync_linked, sync_users, is_user_of,
  syncing_users, branch_ids_of, sync_all_portal_users_staff,
}
use yclients_project.Auth.Tenancy.{UserBranch, role_text}
use yclients_project.Portal.Staff.Serving.{
  SameStaff, self-SameStaff, bookable-SameStaff, own_mirror_lem, mirror_same, crm_same, any_some,
  by_company-IsIn, Served, added, of_crm, of_mirror, served,
}

module _ (user : User) (all : List Staff) (keyed : IsKeyed (λ (r : Staff). r.id) all) (row : Staff)
    (here : IsIn row all) (foreign : is_own_mirror user.id row ≡ false) where
  -- The row is there, but for `bookable`.
  abbrev IsKept : List Staff → Type 0
  IsKept rows = (r : Staff) × IsIn r rows × SameStaff r row

  -- No mirror that stands for a branch has the id of the row.
  not_chosen :
      (company : ℕ) (chosen : Staff)
      → by_company user.id (linked_to user.id all) company ≡ some chosen
      → is_crm_row user.id chosen ≡ false
      → chosen.id ≢ row.id
  not_chosen company chosen e crm same =
      let (i, f) = by_company-IsIn user.id company (linked_to user.id all) chosen e in
      let (j, h) = IsIn-select (λ (r : Staff). holds r.portal_user_id user.id) chosen all i in
      let is_row : chosen ≡ row = keyed chosen row j here same in
      cc (ap (is_own_mirror user.id) is_row, own_mirror_lem user.id chosen h crm, foreign)

  served_keeps :
      (company : ℕ) (rows result : List Staff)
      → Served user (linked_to user.id all) company rows result
      → IsKept rows
      → IsKept result
  unfolding add_portal_staff
  served_keeps company rows _ (added e) (r, i, same) = (r, append-IsIn_left r rows _ i, same)
  served_keeps company rows _ (of_crm chosen e h) (r, i, same) =
      elim (Bool-cases (r.id == chosen.id)) [
        | inl f ↦ (
          as_bookable r,
          update-IsIn_hit (λ (x : Staff). x.id == chosen.id) as_bookable r rows i f,
          bookable-SameStaff r row same,
        )
        | inr f ↦
            (r, update-IsIn_miss (λ (x : Staff). x.id == chosen.id) as_bookable r rows i f, same)
      ]
  served_keeps company rows _ (of_mirror chosen e h) (r, i, same) =
      elim (Bool-cases (r.id == chosen.id)) [
        | inl f ↦
            (let ids : r.id ≡ chosen.id = ground arith in
              absurd (not_chosen company chosen e h (sym ids ∙ same.id)))
        | inr f ↦ (
          r,
          update-IsIn_miss (λ (x : Staff). x.id == chosen.id)
              (as_mirror (staff_display_name user) (role_text user.role)) r rows i f,
          same,
        )
      ]

  companies_keep :
      (companies : List ℕ) (rows : List Staff)
      → IsKept rows
      → IsKept (serve_companies user (linked_to user.id all) companies rows)
  unfolding serve_companies
  companies_keep [] rows k = k
  companies_keep (company ∷ companies) rows k =
      companies_keep companies (serve_company user (linked_to user.id all) company rows) (
        served_keeps company rows (serve_company user (linked_to user.id all) company rows)
          (served user (linked_to user.id all) company rows) k)

  not_retired :
      (targets : List ℕ) (r : Staff)
      → SameStaff r row
      → is_retired user.id (linked_to user.id all) targets r ≡ false
  not_retired targets r same =
      elim (Bool-cases (is_retired user.id (linked_to user.id all) targets r)) [
        | inr e ↦ e
        | inl e ↦
            (let (l, i, f) =
                any_some (λ (x : Staff). x.id == r.id) (linked_to user.id all) (ground arith) in
              let (j, h) = IsIn-select (λ (x : Staff). holds x.portal_user_id user.id) l all i in
              let ids : l.id ≡ r.id = ground arith in
              let is_row : l ≡ row = keyed l row j here (ids ∙ same.id) in
              let linked_row : holds row.portal_user_id user.id ≡ true =
                sym (ap (λ (x : Staff). holds x.portal_user_id user.id) is_row) ∙ h in
              let crm : is_crm_row user.id r ≡ false = ground arith in
              let same_crm : is_crm_row user.id r ≡ is_crm_row user.id row =
                crm_same user.id r row same in
              absurd (cc (own_mirror_lem user.id row linked_row (sym same_crm ∙ crm), foreign)))
      ]

  retire_keeps :
      (targets : List ℕ) (rows : List Staff)
      → IsKept rows
      → IsKept (retire_rows user.id (linked_to user.id all) targets rows)
  unfolding retire_rows
  retire_keeps targets rows (r, i, same) = (
    r,
    update-IsIn_miss (is_retired user.id (linked_to user.id all) targets) as_fired r rows i
        (not_retired targets r same),
    same,
  )

  own_same : (r : Staff) → SameStaff r row → is_own_mirror user.id r ≡ false
  own_same r same =
      let linked_same = ap (λ z. holds z user.id) same.portal_user_id in
      rw (mirror_same r row same, linked_same) foreign

  fire_keeps : (rows : List Staff) → IsKept rows → IsKept (fire_mirrors user.id rows)
  unfolding fire_mirrors
  fire_keeps rows (r, i, same) =
      (r, update-IsIn_miss (is_own_mirror user.id) as_fired r rows i (own_same r same), same)

  pub linked_keeps :
      (company_ids : List ℕ) (rows : List Staff)
      → IsKept rows
      → IsKept (sync_linked user company_ids (linked_to user.id all) rows)
  unfolding sync_linked
  linked_keeps company_ids rows k =
      elim (Bool-cases (not (portal_user_syncs_to_staff user) || is_empty company_ids)) [
        | inr e ↦ rw e (
            retire_keeps (target_companies company_ids)
              (serve_companies user (linked_to user.id all) (target_companies company_ids) rows)
              (companies_keep (target_companies company_ids) rows k))
        | inl e ↦
            (elim (Bool-cases (
              any (λ (x : Staff). not (x.fired == 1) && not (is_crm_row user.id x))
                (linked_to user.id all))) [
                  | inl f ↦ rw (e, f) (fire_keeps rows k)
                  | inr f ↦ rw (e, f) k
                ])
      ]

module _ (all : List Staff) (keyed : IsKeyed (λ (r : Staff). r.id) all) (row : Staff)
    (here : IsIn row all) where
  users_keep :
      (branches : List UserBranch) (users : List User) (rows : List Staff)
      → ((user : User) → IsIn user users → is_own_mirror user.id row ≡ false)
      → (r : Staff) × IsIn r rows × SameStaff r row
      → (r : Staff) × IsIn r (sync_users branches all users rows) × SameStaff r row
  unfolding sync_users
  users_keep branches [] rows foreign k = k
  users_keep branches (user ∷ users) rows foreign k =
      users_keep branches users
        (sync_linked user (branch_ids_of user.id branches) (linked_to user.id all) rows)
        (λ u i. foreign u (inr i))
        (linked_keeps user all keyed row here (foreign user (inl refl))
          (branch_ids_of user.id branches) rows k)

  -- A synchronization of all users of a tenant leaves each row that is not a mirror of one of them
  -- who syncs: rows of YClients and the rows of other tenants keep all their fields but `bookable`.
  pub sync_all_keeps_others :
      (account : Option ℕ) (users : List User) (branches : List UserBranch)
      → ((user : User)
          → IsIn user users
          → is_user_of account user ≡ true
          → portal_user_syncs_to_staff user ≡ true
          → is_own_mirror user.id row ≡ false)
      → (r : Staff) × IsIn r (sync_all_portal_users_staff account users branches all)
        × SameStaff r row
  unfolding sync_all_portal_users_staff
  sync_all_keeps_others account users branches foreign =
      let by_id : User → User → Bool = λ a b. leb a.id b.id in
      let of_tenant = select (is_user_of account) users in
      users_keep branches (syncing_users account users) all
        (λ user i.
          (let (j, syncs) =
              IsIn-select portal_user_syncs_to_staff user (order_by by_id of_tenant) i in
            let (k, member) =
              IsIn-select (is_user_of account) user users (IsIn-order_by by_id user of_tenant j) in
            foreign user k member syncs))
        (row, here, self-SameStaff row)
