-- ===== src/Auth/Scope.antt =====
-- auth_scope.py: what the principal of a request may read. A set of ids is a list in which neither
-- order nor repetition matters, and `sorted` of it is the ordered list without repetitions.
pub mod Bounds
pub mod Clamp
pub mod Staff
pub mod Money
pub mod Views
use yclients_project.Prelude.{
  ℕ, Bool, true, false, not, ◌&&◌, ◌||◌, Option, none, some, List, [], ◌∷◌, map, if◌then◌else◌,
  ◌==◌, leb, elem, is_subset, is_empty, is_none, distinct,
}
use yclients_project.Prelude.Rows.{select, order_by}
use yclients_project.Prelude.Text.{Text, codes}
use yclients_project.Auth.{
  Role, platform_admin, owner, branch_admin, manager, admin, barber, unknown, Reply, ok, refused,
  refuse, is_platform_admin_role,
}
use yclients_project.Auth.Metrics.{all_money_codes, default_money_codes_for_role, has_text}

-- A row `(company_id, staff_id)` that the user owns.
pub record StaffKey : Type 0 where
  pub company : ℕ
  pub staff : ℕ

pub record AccessContext : Type 0 where
  pub user_id : Option ℕ
  pub role : Option Role
  pub portal_account_id : Option ℕ
  pub staff_id : Option ℕ
  pub is_platform_admin : Bool
  pub full_access : Bool
  pub company_ids : Option (List ℕ)
  pub money_metrics : List Text
  pub staff_keys : List StaffKey
  pub is_demo : Bool

abbrev pub ids_or_empty : Option (List ℕ) → List ℕ
ids_or_empty none = []
ids_or_empty (some ids) = ids

abbrev pub metrics_or_default : Option (List Text) → Role → List Text
metrics_or_default none role = default_money_codes_for_role (some role)
metrics_or_default (some metrics) role = metrics

abbrev pub api_key : AccessContext
api_key = record {
  user_id = none;
  role = none;
  portal_account_id = none;
  staff_id = none;
  is_platform_admin = false;
  full_access = true;
  company_ids = none;
  money_metrics = all_money_codes;
  staff_keys = [];
  is_demo = false;
}

abbrev pub from_user :
    ℕ
    → Role
    → Option ℕ
    → Option (List ℕ)
    → Option ℕ
    → Option (List Text)
    → List StaffKey
    → Bool
    → AccessContext
from_user user_id role portal_account_id company_ids staff_id metrics staff_keys is_demo = record {
  user_id = some user_id;
  role = some role;
  portal_account_id = portal_account_id;
  staff_id = staff_id;
  is_platform_admin = is_platform_admin_role role;
  full_access = false;
  company_ids = some (ids_or_empty company_ids);
  money_metrics = metrics_or_default metrics role;
  staff_keys = staff_keys;
  is_demo = is_demo;
}

-- `ctx.role in BRANCH_SCOPE_ROLES` and `ctx.role in STAFF_VIEW_ROLES`
abbrev pub is_branch_scope_role : Role → Bool
is_branch_scope_role platform_admin = true
is_branch_scope_role owner = true
is_branch_scope_role branch_admin = true
is_branch_scope_role manager = true
is_branch_scope_role admin = false
is_branch_scope_role barber = false
is_branch_scope_role (unknown s) = false

abbrev pub is_admin_role : Role → Bool
is_admin_role admin = true
is_admin_role _ = false

abbrev pub has_branch_scope : Option Role → Bool
has_branch_scope none = false
has_branch_scope (some role) = is_branch_scope_role role

abbrev pub has_staff_view : Option Role → Bool
has_staff_view none = false
has_staff_view (some role) = is_branch_scope_role role || is_admin_role role

pub record CompanyScope : Type 0 where
  pub company_id : Option ℕ
  pub allowed_company_ids : Option (List ℕ)

abbrev pub one_company : Option ℕ → CompanyScope
one_company company_id = record { company_id = company_id; allowed_company_ids = none }

abbrev pub many_companies : List ℕ → CompanyScope
many_companies ids = record { company_id = none; allowed_company_ids = some ids }

abbrev pub sorted_set : List ℕ → List ℕ
sorted_set ids = order_by leb (distinct [] ids)

-- Nothing was requested: a single branch is passed on as one, more of them as a list.
abbrev pub whole_scope : List ℕ → CompanyScope
whole_scope (company ∷ []) = one_company (some company)
whole_scope ids = many_companies ids

abbrev pub pick_company : List ℕ → Option ℕ → Reply CompanyScope
pick_company allowed none = ok (whole_scope allowed)
pick_company allowed (some company) =
    if elem company allowed
    then ok (one_company (some company))
    else refuse 403 (codes "Branch not allowed")

unfoldable pub build_company_scope : AccessContext → Option ℕ → Option (List ℕ) → Reply CompanyScope
build_company_scope ctx requested_company_id requested_company_ids =
    let group = ids_or_empty requested_company_ids in
    let allowed = ids_or_empty ctx.company_ids in
    if ctx.full_access
    then ok (
        if not (is_empty group)
        then many_companies (sorted_set group)
        else one_company requested_company_id)
    else if is_empty allowed
    then refuse 403 (codes "No branch access assigned")
    else if not (is_empty group)
    then if is_subset group allowed
      then ok (many_companies (sorted_set group))
      else refuse 403 (codes "Branch not allowed")
    else pick_company allowed requested_company_id

abbrev pub user_branch_ids : AccessContext → Option (List ℕ) × Bool
user_branch_ids ctx =
    if ctx.full_access then (none, false) else (some (ids_or_empty ctx.company_ids), true)

pub record QueryScope : Type 0 where
  pub company_id : Option ℕ
  pub allowed_company_ids : Option (List ℕ)
  pub branch_ids : Option (List ℕ)
  pub force_allowed : Bool

unfoldable pub query_scope : AccessContext → Option ℕ → Option (List ℕ) → Reply QueryScope
query_scope ctx requested_company_id requested_company_ids =
    let (branch_ids, force_allowed) = user_branch_ids ctx in
    elim (build_company_scope ctx requested_company_id requested_company_ids) [
      | refused status detail ids ↦ refused status detail ids
      | ok scope ↦ ok (record {
        company_id = scope.company_id;
        allowed_company_ids = scope.allowed_company_ids;
        branch_ids = branch_ids;
        force_allowed = force_allowed;
      })
    ]

abbrev pub tenant_or : Option ℕ → Reply (Option ℕ) → Reply (Option ℕ)
tenant_or none otherwise = otherwise
tenant_or (some account) otherwise = ok (some account)

unfoldable pub require_tenant_context : AccessContext → Bool → Reply (Option ℕ)
require_tenant_context ctx allow_full_access =
    if ctx.full_access
    then if allow_full_access then ok none else refuse 400 (codes "Tenant scope is required")
    else if ctx.is_platform_admin && is_none ctx.portal_account_id
    then refuse 400 (codes "X-Portal-Account-Id is required")
    else tenant_or ctx.portal_account_id (refuse 403 (codes "Tenant account is required"))

abbrev pub nonempty_or_none : List ℕ → Option (List ℕ)
nonempty_or_none [] = none
nonempty_or_none (x ∷ xs) = some (x ∷ xs)

unfoldable pub require_sync_company_ids : AccessContext → Option (List ℕ) → Reply (Option (List ℕ))
require_sync_company_ids ctx requested_company_ids =
    let requested = distinct [] (ids_or_empty requested_company_ids) in
    let allowed = ids_or_empty ctx.company_ids in
    let forbidden = sorted_set (select (λ x. not (elem x allowed)) requested) in
    if ctx.full_access
    then ok (nonempty_or_none requested)
    else if is_empty allowed
    then refuse 403 (codes "No branch access assigned")
    else if is_empty requested
    then ok (some allowed)
    else if is_empty forbidden
    then ok (some requested)
    else refused 403 (codes "Branches outside scope") forbidden
