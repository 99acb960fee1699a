-- ===== src/Portal/Staff.antt =====
-- portal_staff_sync.py: the staff rows that stand for a portal user in the branches.
--
-- The table is the list of its rows. `_add_portal_staff` is its first attempt: no other transaction
-- takes the same id. The flag that says whether anything was written is left out.
pub mod Serving
pub mod Kept
pub mod Later
pub mod Live
pub mod Outside
use yclients_project.Prelude.{
  ℕ, ◌+◌, max, Bool, true, false, not, ◌&&◌, ◌||◌, Option, none, some, List, [], ◌∷◌, ◌++◌, map,
  if◌then◌else◌, ◌==◌, leb, elem, distinct, is_empty, is_none, is_some, any,
}
use yclients_project.Prelude.Rows.{select, update_where, order_by}
use yclients_project.Prelude.Text.{Text, codes, text_eq, strip}
use yclients_project.Auth.{Role, is_platform_admin_role, is_owner_role}
use yclients_project.Auth.Sessions.{User}
use yclients_project.Auth.Tenancy.{UserBranch, role_text}
use yclients_project.Portal.Ownership.{holds}

pub record Staff : Type 0 where
  pub id : ℕ
  pub external_id : Option ℕ
  pub source_type : Text
  pub name : Text
  pub position : Text
  pub company_id : Option ℕ
  pub portal_user_id : Option ℕ
  pub fired : ℕ
  pub bookable : Bool

abbrev pub source_portal : Text
source_portal = codes "portal"

unfoldable pub portal_user_syncs_to_staff : User → Bool
portal_user_syncs_to_staff user =
    not (is_platform_admin_role user.role) && not (is_owner_role user.role) && user.is_active

-- `email.split('@', 1)[0]`
abbrev pub before_at : Text → Text
before_at [] = []
before_at (c ∷ s) = let rest = before_at s in if c == 64 then [] else c ∷ rest

unfoldable pub staff_display_name : User → Text
staff_display_name user = elim user.full_name [
  | none ↦ before_at user.email
  | some name ↦ if is_empty (strip name) then before_at user.email else strip name
]

unfoldable pub is_mirror_row : Staff → Bool
is_mirror_row row =
    text_eq row.source_type source_portal || (is_some row.portal_user_id && is_none row.external_id)

-- `_is_crm_row` and `_portal_owned_staff_clause`
abbrev pub is_crm_row : ℕ → Staff → Bool
is_crm_row user_id row = holds row.portal_user_id user_id && not (is_mirror_row row)

abbrev pub is_own_mirror : ℕ → Staff → Bool
is_own_mirror user_id row = holds row.portal_user_id user_id && is_mirror_row row

abbrev pub max_id : List Staff → ℕ
max_id [] = 0
max_id (row ∷ rows) = max row.id (max_id rows)

unfoldable pub next_staff_id : List Staff → ℕ
next_staff_id rows = max_id rows + 1

abbrev pub portal_staff : ℕ → Text → Text → ℕ → ℕ → Staff
portal_staff id name role company user_id = record {
  id = id;
  external_id = none;
  source_type = source_portal;
  name = name;
  position = role;
  company_id = some company;
  portal_user_id = some user_id;
  fired = 0;
  bookable = true;
}

unfoldable pub add_portal_staff : Text → Text → ℕ → ℕ → List Staff → List Staff
add_portal_staff name role company user_id rows =
    rows ++ portal_staff (next_staff_id rows) name role company user_id ∷ []

abbrev pub linked_to : ℕ → List Staff → List Staff
linked_to user_id rows = select (λ (row : Staff). holds row.portal_user_id user_id) rows

-- The key of the sort, in ascending order: of YClients, not fired, the id.
abbrev pub sorts_before : ℕ → Staff → Staff → Bool
sorts_before user_id a b =
    let crm_a = is_crm_row user_id a in
    let crm_b = is_crm_row user_id b in
    let live_a = not (a.fired == 1) in
    let live_b = not (b.fired == 1) in
    if crm_a && not crm_b
    then false
    else if crm_b && not crm_a
    then true
    else if live_a && not live_b
    then false
    else if live_b && not live_a
    then true
    else leb a.id b.id

abbrev pub last : List Staff → Option Staff
last [] = none
last (row ∷ rows) = elim (last rows) [ none ↦ some row | some other ↦ some other ]

-- `by_company.get(company)`: the last of the sorted rows of the branch.
unfoldable pub by_company : ℕ → List Staff → ℕ → Option Staff
by_company user_id linked company = last (
    select (λ (row : Staff). holds row.company_id company) (order_by (sorts_before user_id) linked))

abbrev pub write_staff : ℕ → (Staff → Staff) → List Staff → List Staff
write_staff id f rows = update_where (λ (row : Staff). row.id == id) f rows

abbrev pub as_bookable : Staff → Staff
as_bookable row = record row { bookable = true }

abbrev pub as_mirror : Text → Text → Staff → Staff
as_mirror name role row = record row { name = name; position = role; fired = 0; bookable = true }

abbrev pub as_fired : Staff → Staff
as_fired row = record row { fired = 1 }

-- One target branch.
unfoldable pub serve_company : User → List Staff → ℕ → List Staff → List Staff
serve_company user linked company rows = elim (by_company user.id linked company) [
  | none ↦ add_portal_staff (staff_display_name user) (role_text user.role) company user.id rows
  | some row ↦
      if is_crm_row user.id row
      then write_staff row.id as_bookable rows
      else write_staff row.id (as_mirror (staff_display_name user) (role_text user.role)) rows
]

unfoldable pub serve_companies : User → List Staff → List ℕ → List Staff → List Staff
serve_companies user linked [] rows = rows
serve_companies user linked (company ∷ companies) rows =
    serve_companies user linked companies (serve_company user linked company rows)

-- Whether the row stands for its branch, which is a target.
abbrev pub stands_for : ℕ → List Staff → List ℕ → Staff → Bool
stands_for user_id linked targets row = elim row.company_id [
  | none ↦ false
  | some company ↦ elem company targets && elim (by_company user_id linked company) [
    | none ↦ false
    | some chosen ↦ chosen.id == row.id
  ]
]

abbrev pub is_retired : ℕ → List Staff → List ℕ → Staff → Bool
is_retired user_id linked targets row =
    any (λ (l : Staff). l.id == row.id) linked
    && not (is_crm_row user_id row)
    && not (stands_for user_id linked targets row)

unfoldable pub retire_rows : ℕ → List Staff → List ℕ → List Staff → List Staff
retire_rows user_id linked targets rows =
    update_where (is_retired user_id linked targets) as_fired rows

unfoldable pub fire_mirrors : ℕ → List Staff → List Staff
fire_mirrors user_id rows = update_where (is_own_mirror user_id) as_fired rows

abbrev pub target_companies : List ℕ → List ℕ
target_companies company_ids = order_by leb (distinct [] company_ids)

-- `sync_portal_user_staff` with the user's rows at hand.
unfoldable pub sync_linked : User → List ℕ → List Staff → List Staff → List Staff
sync_linked user company_ids linked rows =
    let targets = target_companies company_ids in
    if not (portal_user_syncs_to_staff user) || is_empty company_ids
    then (if any (λ (row : Staff). not (row.fired == 1) && not (is_crm_row user.id row)) linked
        then fire_mirrors user.id rows
        else rows)
    else retire_rows user.id linked targets (serve_companies user linked targets rows)

unfoldable pub sync_portal_user_staff : User → List ℕ → List Staff → List Staff
sync_portal_user_staff user company_ids rows =
    sync_linked user company_ids (linked_to user.id rows) rows

abbrev pub is_user_of : Option ℕ → User → Bool
is_user_of none user = true
is_user_of (some account) user = holds user.portal_account_id account

abbrev pub syncing_users : Option ℕ → List User → List User
syncing_users account users =
    select portal_user_syncs_to_staff
      (order_by (λ (a b : User). leb a.id b.id) (select (is_user_of account) users))

abbrev pub branch_ids_of : ℕ → List UserBranch → List ℕ
branch_ids_of user_id branches = order_by leb (
    map (λ (b : UserBranch). b.company_id)
      (select (λ (b : UserBranch). b.user_id == user_id) branches))

-- The walk over the users; `before` is the table as it was read once for all of them.
unfoldable pub sync_users : List UserBranch → List Staff → List User → List Staff → List Staff
sync_users branches before [] rows = rows
sync_users branches before (user ∷ users) rows =
    sync_users branches before users
      (sync_linked user (branch_ids_of user.id branches) (linked_to user.id before) rows)

unfoldable pub sync_all_portal_users_staff :
    Option ℕ → List User → List UserBranch → List Staff → List Staff
sync_all_portal_users_staff account users branches rows =
    sync_users branches rows (syncing_users account users) rows

-- `detach_portal_user_staff`
unfoldable pub detach_portal_user_staff : ℕ → List Staff → List Staff
detach_portal_user_staff user_id rows =
    update_where (is_crm_row user_id) (λ (row : Staff). record row { portal_user_id = none })
      (fire_mirrors user_id rows)
