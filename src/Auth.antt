-- ===== src/Auth.antt =====
-- Authorization of the portal: roles, the replies of a refused request, access scopes and sessions.
pub mod Hierarchy
pub mod Metrics
pub mod Scope
pub mod Sessions
pub mod Tenancy
pub mod Deps
use yclients_project.Prelude.{ℕ, ◌≡◌, Bool, true, false, ◌||◌, List, []}
use yclients_project.Prelude.Text.{Text, codes}

-- The values of `portal_users.role`: models.py `PORTAL_ROLES`, and any other text.
pub data Role : Type 0 where
  platform_admin owner branch_admin manager admin barber : Role
  unknown : Text → Role

-- What a function that may raise an `HTTPException` gives: a value, or a status code with the
-- detail and the ids that the detail lists.
pub data Reply (A : Type 0) : Type 0 where
  ok : A → Reply A
  refused : ℕ → Text → List ℕ → Reply A

abbrev pub refuse : {A : Type 0} → ℕ → Text → Reply A
refuse status detail = refused status detail []

abbrev pub is_platform_admin_role : Role → Bool
is_platform_admin_role platform_admin = true
is_platform_admin_role _ = false

abbrev pub is_owner_role : Role → Bool
is_owner_role owner = true
is_owner_role _ = false

abbrev pub is_branch_admin_role : Role → Bool
is_branch_admin_role branch_admin = true
is_branch_admin_role _ = false
