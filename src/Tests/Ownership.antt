-- ===== src/Tests/Ownership.antt =====
-- Two tenants with a branch each, and the theorems of Portal.Ownership at them.
use yclients_project.Prelude.{ℕ, ◌≡◌, refl, true, some, [], ◌∷◌, IsIn}
use yclients_project.Prelude.Text.{codes}
use yclients_project.Auth.{platform_admin}
use yclients_project.Auth.Sessions.{User}
use yclients_project.Auth.Tenancy.{Branch}
use yclients_project.Portal.Ownership.{
  Company, Tenants, tenant_has_business_users, can_reassign_branch_from_tenant, owner_in, tenant_of,
  reassign_branch_from_admin_only_tenant, companies_claimed_elsewhere,
}
use yclients_project.Portal.Ownership.Safety.{
  IsGiven, reassign_branch_gives, reassign_keeps_business,
}
use yclients_project.Portal.Ownership.Claims.{HasClaim, companies_claimed_elsewhere_lem}
use yclients_project.Tests.Sessions.{holder}

abbrev support : User
support = record holder { id = 2; portal_account_id = some 2; role = platform_admin }

abbrev busy_branch : Branch
busy_branch = record { portal_account_id = 1; company_id = 10 }

abbrev free_branch : Branch
free_branch = record { portal_account_id = 2; company_id = 20 }

abbrev location : Company
location = record {
  id = 10;
  portal_account_id = some 1;
  external_id = some 100;
  source_type = codes "yclients";
}

abbrev tenants : Tenants
tenants = record {
  users = holder ∷ support ∷ [];
  branches = busy_branch ∷ free_branch ∷ [];
  companies = location ∷ [];
  credentials = record { id = 5; portal_account_id = some 2 } ∷ [];
  links = record { credential_id = 5; company_id = 20 } ∷ [];
}

stored : tenant_of 20 tenants.branches ≡ some 2
unfolding owner_in
stored = refl

granted : (reassign_branch_from_admin_only_tenant free_branch 3 tenants).1 ≡ true
unfolding reassign_branch_from_admin_only_tenant can_reassign_branch_from_tenant
    tenant_has_business_users
granted = refl

owned : tenant_of 10 tenants.branches ≡ some 1
unfolding owner_in
owned = refl

tenant_is_busy : tenant_has_business_users 1 tenants ≡ true
unfolding tenant_has_business_users
tenant_is_busy = refl

reassign_branch_gives_example :
    IsGiven free_branch 3 tenants (reassign_branch_from_admin_only_tenant free_branch 3 tenants)
reassign_branch_gives_example = reassign_branch_gives free_branch 3 tenants stored granted

reassign_keeps_business_example :
    tenant_of 10 (reassign_branch_from_admin_only_tenant busy_branch 3 tenants).0.branches ≡ some 1
reassign_keeps_business_example =
    reassign_keeps_business busy_branch 3 tenants 10 1 owned owned tenant_is_busy

companies_claimed_elsewhere_lem_example :
    (IsIn {A = ℕ} 100 (companies_claimed_elsewhere (codes "yclients") (100 ∷ []) (some 3) tenants)
      → IsIn {A = ℕ} 100 (100 ∷ []) × HasClaim (codes "yclients") (100 ∷ []) (some 3) tenants 100)
    × (IsIn {A = ℕ} 100 (100 ∷ [])
        → HasClaim (codes "yclients") (100 ∷ []) (some 3) tenants 100
        → IsIn {A = ℕ} 100
            (companies_claimed_elsewhere (codes "yclients") (100 ∷ []) (some 3) tenants))
companies_claimed_elsewhere_lem_example =
    companies_claimed_elsewhere_lem (codes "yclients") (100 ∷ []) (some 3) tenants 100
