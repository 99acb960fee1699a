-- ===== src/Portal/Ownership.antt =====
-- portal_tenant_ownership.py, and `companies_claimed_elsewhere` of data_sources.py.
--
-- The company of a branch and of a link is unique, so it names the row. A missing account is `none`
-- where the code passes -1.
pub mod Reassign
pub mod Safety
pub mod Companies
pub mod Claims
use yclients_project.Prelude.{
  ℕ, or_else, Bool, true, false, not, ◌&&◌, Option, none, some, List, [], ◌∷◌, map, any,
  if◌then◌else◌, ◌==◌, elem, distinct, is_empty,
}
use yclients_project.Prelude.Rows.{select, delete_where, update_where}
use yclients_project.Prelude.Text.{Text, text_eq}
use yclients_project.Auth.{is_platform_admin_role}
use yclients_project.Auth.Sessions.{User}
use yclients_project.Auth.Tenancy.{Branch}

pub record Company : Type 0 where
  pub id : ℕ
  pub portal_account_id : Option ℕ
  pub external_id : Option ℕ
  pub source_type : Text

pub record CredentialRow : Type 0 where
  pub id : ℕ
  pub portal_account_id : Option ℕ

pub record Link : Type 0 where
  pub credential_id : ℕ
  pub company_id : ℕ

pub record Tenants : Type 0 where
  pub users : List User
  pub branches : List Branch
  pub companies : List Company
  pub credentials : List CredentialRow
  pub links : List Link

-- `column == value` on a nullable column
abbrev pub holds : Option ℕ → ℕ → Bool
holds none n = false
holds (some m) n = m == n

abbrev pub is_business_user : ℕ → User → Bool
is_business_user account user =
    holds user.portal_account_id account && not (is_platform_admin_role user.role)

unfoldable pub tenant_has_business_users : ℕ → Tenants → Bool
tenant_has_business_users account db = not (is_empty (select (is_business_user account) db.users))

unfoldable pub can_reassign_branch_from_tenant : ℕ → Option ℕ → Tenants → Bool
can_reassign_branch_from_tenant source target db =
    if holds target source then true else not (tenant_has_business_users source db)

abbrev pub credential_ids : ℕ → Tenants → List ℕ
credential_ids account db =
    map (λ (c : CredentialRow). c.id)
      (select (λ (c : CredentialRow). holds c.portal_account_id account) db.credentials)

abbrev pub is_stale_link : ℕ → List ℕ → Link → Bool
is_stale_link company ids link = (link.company_id == company) && elem link.credential_id ids

unfoldable pub detach_source_credential_company_links : ℕ → ℕ → Tenants → Tenants
detach_source_credential_company_links account company db =
    let ids = credential_ids account db in
    if is_empty ids
    then db
    else record db { links = delete_where (is_stale_link company ids) db.links }

unfoldable pub give : ℕ → ℕ → Branch → Branch
give company target branch =
    if branch.company_id == company then record branch { portal_account_id = target } else branch

abbrev pub give_branch : ℕ → ℕ → Tenants → Tenants
give_branch company target db = record db { branches = map (give company target) db.branches }

unfoldable pub reassign_branch_from_admin_only_tenant : Branch → ℕ → Tenants → Tenants × Bool
reassign_branch_from_admin_only_tenant branch target db =
    if branch.portal_account_id == target
    then (db, true)
    else if not (can_reassign_branch_from_tenant branch.portal_account_id (some target) db)
    then (db, false)
    else (
      give_branch branch.company_id target
          (detach_source_credential_company_links branch.portal_account_id branch.company_id db),
      true,
    )

unfoldable pub owner_in : ℕ → Branch → Option ℕ
owner_in company branch =
    if branch.company_id == company then some branch.portal_account_id else none

-- `tenant_by_company.get(company)`: of several rows the last one counts.
abbrev pub tenant_of : ℕ → List Branch → Option ℕ
tenant_of company [] = none
tenant_of company (b ∷ branches) = or_else (tenant_of company branches) (owner_in company b)

abbrev pub is_external : Text → ℕ → Company → Bool
is_external source_type external_id company =
    text_eq company.source_type source_type && holds company.external_id external_id

-- A row from before external ids existed.
abbrev pub is_legacy : ℕ → Company → Bool
is_legacy id company =
    (company.id == id) && elim company.external_id [ none ↦ true | some e ↦ false ]

abbrev pub legacy_ids : ℕ → List Company → List ℕ
legacy_ids external_id companies =
    if is_empty (select (is_legacy external_id) companies) then [] else external_id ∷ []

-- `company_ids_by_external.get(external_id, [])`
unfoldable pub company_ids_of : Text → ℕ → List Company → List ℕ
company_ids_of source_type external_id companies =
    let matched =
      map (λ (c : Company). c.id) (select (is_external source_type external_id) companies) in
    if is_empty matched then legacy_ids external_id companies else matched

-- Whether the company belongs to another tenant that cannot be taken over.
unfoldable pub is_taken : Option ℕ → Tenants → ℕ → Bool
is_taken account db company = elim (tenant_of company db.branches) [
  | none ↦ false
  | some owner ↦
      if holds account owner then false else not (can_reassign_branch_from_tenant owner account db)
]

unfoldable pub companies_claimed_elsewhere : Text → List ℕ → Option ℕ → Tenants → List ℕ
companies_claimed_elsewhere source_type external_ids account db =
    select
      (λ external_id.
        any (is_taken account db) (company_ids_of source_type external_id db.companies))
      (distinct [] external_ids)
