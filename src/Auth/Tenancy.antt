-- ===== src/Auth/Tenancy.antt =====
-- auth_service.py: the branches and the staff rows of a user; auth_deps.py: `_resolve_money_metrics`.
use yclients_project.Prelude.{
  ℕ, Bool, true, false, not, ◌&&◌, Option, none, some, List, [], map, if◌then◌else◌, ◌==◌, leb,
}
use yclients_project.Prelude.Rows.{select, order_by, first}
use yclients_project.Prelude.Text.{Text, codes, text_eq}
use yclients_project.Auth.{
  Role, platform_admin, owner, branch_admin, manager, admin, barber, unknown,
  is_platform_admin_role, is_owner_role,
}
use yclients_project.Auth.Metrics.{all_money_codes, default_codes, has_text}
use yclients_project.Auth.Sessions.{RefreshToken, User}

pub record Branch : Type 0 where
  pub portal_account_id : ℕ
  pub company_id : ℕ

pub record UserBranch : Type 0 where
  pub user_id : ℕ
  pub company_id : ℕ

pub record StaffRow : Type 0 where
  pub id : ℕ
  pub company_id : Option ℕ
  pub portal_user_id : Option ℕ
  pub fired : Bool

pub record MetricVisibility : Type 0 where
  pub portal_account_id : ℕ
  pub role : Role
  pub visible_codes : List Text

pub record Portal : Type 0 where
  pub users : List User
  pub tokens : List RefreshToken
  pub branches : List Branch
  pub user_branches : List UserBranch
  pub staff : List StaffRow
  pub visibility : List MetricVisibility

abbrev pub role_text : Role → Text
role_text platform_admin = codes "platform_admin"
role_text owner = codes "owner"
role_text branch_admin = codes "branch_admin"
role_text manager = codes "manager"
role_text admin = codes "admin"
role_text barber = codes "barber"
role_text (unknown s) = s

-- `role in CONFIGURABLE_MONEY_ROLES`
abbrev pub is_configurable_money_role : Role → Bool
is_configurable_money_role branch_admin = true
is_configurable_money_role manager = true
is_configurable_money_role admin = true
is_configurable_money_role barber = true
is_configurable_money_role _ = false

abbrev pub account_branch_ids : ℕ → List Branch → List ℕ
account_branch_ids account branches = order_by leb (
    map (λ (b : Branch). b.company_id)
      (select (λ (b : Branch). b.portal_account_id == account) branches))

abbrev pub load_portal_account_branch_ids : Option ℕ → Portal → List ℕ
load_portal_account_branch_ids none db = []
load_portal_account_branch_ids (some account) db = account_branch_ids account db.branches

abbrev pub load_user_branch_ids : ℕ → Portal → List ℕ
load_user_branch_ids user_id db = order_by leb (
    map (λ (b : UserBranch). b.company_id)
      (select (λ (b : UserBranch). b.user_id == user_id) db.user_branches))

unfoldable pub load_user_access_branch_ids : User → Portal → List ℕ
load_user_access_branch_ids user db =
    if is_platform_admin_role user.role
    then []
    else if is_owner_role user.role
    then load_portal_account_branch_ids user.portal_account_id db
    else load_user_branch_ids user.id db

abbrev pub is_row_of : ℕ → StaffRow → Bool
is_row_of user_id row = elim row.portal_user_id [
  | none ↦ false
  | some owner_id ↦ (owner_id == user_id) && not row.fired
]

unfoldable pub load_portal_user_staff_rows : ℕ → Portal → List StaffRow
load_portal_user_staff_rows user_id db =
    order_by (λ (a b : StaffRow). leb a.id b.id) (select (is_row_of user_id) db.staff)

abbrev pub is_setting_of : ℕ → Role → MetricVisibility → Bool
is_setting_of account role row =
    (row.portal_account_id == account) && text_eq (role_text row.role) (role_text role)

abbrev pub stored_codes : Option MetricVisibility → Role → List Text
stored_codes none role = default_codes role
stored_codes (some row) role = select (λ code. has_text code all_money_codes) row.visible_codes

unfoldable pub resolve_money_metrics : Option ℕ → Role → Portal → List Text
resolve_money_metrics none role db = default_codes role
resolve_money_metrics (some account) role db =
    if is_configurable_money_role role
    then stored_codes (first (select (is_setting_of account role) db.visibility)) role
    else default_codes role
