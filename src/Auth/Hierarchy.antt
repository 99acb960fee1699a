-- ===== src/Auth/Hierarchy.antt =====
-- auth_hierarchy.py: who may list, create and change whom.
pub mod Rules
use yclients_project.Prelude.{
  ℕ, Bool, true, false, not, ◌&&◌, ◌||◌, Option, none, some, List, [], ◌∷◌, if◌then◌else◌, ◌==◌,
  leb, ltb, elem, is_subset, intersects, is_empty, distinct,
}
use yclients_project.Prelude.Rows.{select, order_by}
use yclients_project.Prelude.Text.{Text, codes}
use yclients_project.Auth.{
  Role, platform_admin, owner, branch_admin, manager, admin, barber, unknown, Reply, ok, refused,
  refuse, is_platform_admin_role, is_owner_role, is_branch_admin_role,
}

-- `ROLE_LEVEL`: `admin` and `barber` share a rank.
abbrev pub rank : Role → Option ℕ
rank platform_admin = some 0
rank owner = some 1
rank branch_admin = some 2
rank manager = some 3
rank admin = some 4
rank barber = some 4
rank (unknown s) = none

abbrev pub portal_roles : List Role
portal_roles = platform_admin ∷ owner ∷ branch_admin ∷ manager ∷ admin ∷ barber ∷ []

-- `TENANT_WIDE` is the pair that the code writes out: platform admin and owner.
abbrev pub is_tenant_wide : Role → Bool
is_tenant_wide role = is_platform_admin_role role || is_owner_role role

abbrev pub is_user_admin : Role → Bool
is_user_admin role = is_tenant_wide role || is_branch_admin_role role

abbrev pub invalid_role : {A : Type 0} → Reply A
invalid_role =
    refuse 400
      (codes "Invalid role. Allowed: platform_admin, owner, branch_admin, manager, admin, barber")

abbrev pub level_of : Option ℕ → Reply ℕ
level_of none = invalid_role
level_of (some n) = ok n

unfoldable pub role_level : Role → Reply ℕ
role_level role = level_of (rank role)

-- A comparison of two calls of `role_level`, of which the left one is called first.
abbrev pub compared : (ℕ → ℕ → Bool) → Reply ℕ → Reply ℕ → Reply Bool
compared test (refused status detail ids) right = refused status detail ids
compared test (ok a) (refused status detail ids) = refused status detail ids
compared test (ok a) (ok b) = ok (test a b)

unfoldable pub rank_at_or_below : Role → Role → Reply Bool
unfolding role_level
rank_at_or_below actor target = compared (λ t a. leb a t) (role_level target) (role_level actor)

unfoldable pub same_rank : Role → Role → Reply Bool
unfolding role_level
same_rank actor target = compared (λ t a. t == a) (role_level target) (role_level actor)

abbrev pub outranks : ℕ → Role → Bool
outranks actor_rank role = elim (rank role) [ none ↦ false | some n ↦ ltb actor_rank n ]

unfoldable pub assignable_roles : Role → Reply (List Role)
unfolding role_level
assignable_roles actor = elim (role_level actor) [
  | refused status detail ids ↦ refused status detail ids
  | ok n ↦ ok (select (outranks n) portal_roles)
]

abbrev pub branches_overlap : List ℕ → List ℕ → Bool
branches_overlap actor_branch_ids target_branch_ids = intersects actor_branch_ids target_branch_ids

unfoldable pub branch_scope_ok : List ℕ → List ℕ → Bool
branch_scope_ok actor_branch_ids target_branch_ids =
    if is_empty actor_branch_ids || is_empty target_branch_ids
    then false
    else is_subset target_branch_ids actor_branch_ids

unfoldable pub can_list_user : Role → List ℕ → Role → List ℕ → Reply Bool
unfolding rank_at_or_below same_rank branch_scope_ok
can_list_user actor actor_ids target target_ids = elim (rank_at_or_below actor target) [
  | refused status detail ids ↦ refused status detail ids
  | ok below ↦
      if not below
      then ok false
      else if is_tenant_wide actor
      then ok true
      else elim (same_rank actor target) [
        | refused status detail ids ↦ refused status detail ids
        | ok peers ↦
            if peers
            then if is_empty actor_ids
              then ok false
              else if is_empty target_ids
              then ok false
              else ok (branches_overlap actor_ids target_ids)
            else ok (branch_scope_ok actor_ids target_ids)
      ]
]

unfoldable pub can_manage_user : Role → List ℕ → Role → List ℕ → Reply Bool
unfolding can_list_user branch_scope_ok
can_manage_user actor actor_ids target target_ids =
    if not (is_user_admin actor)
    then ok false
    else elim (can_list_user actor actor_ids target target_ids) [
      | refused status detail ids ↦ refused status detail ids
      | ok listed ↦
          if not listed
          then ok false
          else if is_tenant_wide actor
          then ok true
          else ok (branch_scope_ok actor_ids target_ids)
    ]

abbrev pub same_role : Role → Role → Bool
same_role platform_admin platform_admin = true
same_role owner owner = true
same_role branch_admin branch_admin = true
same_role manager manager = true
same_role admin admin = true
same_role barber barber = true
same_role _ _ = false

abbrev pub is_among : Role → List Role → Bool
is_among role [] = false
is_among role (r ∷ roles) = same_role r role || is_among role roles

unfoldable pub assert_can_assign_role : Role → Role → Reply Unit
unfolding assignable_roles
assert_can_assign_role actor target =
    if not (is_among target portal_roles) then invalid_role else elim (assignable_roles actor) [
      | refused status detail ids ↦ refused status detail ids
      | ok roles ↦
          if is_among target roles then ok tt else refuse 403 (codes "Cannot assign this role")
    ]

unfoldable pub assert_can_manage_user : Role → List ℕ → Role → List ℕ → Reply Unit
unfolding can_manage_user
assert_can_manage_user actor actor_ids target target_ids =
    elim (can_manage_user actor actor_ids target target_ids) [
      | refused status detail ids ↦ refused status detail ids
      | ok allowed ↦ if allowed then ok tt else refuse 403 (codes "Cannot manage this user")
    ]

unfoldable pub can_manage_staff : Role → List ℕ → ℕ → Bool
can_manage_staff actor actor_ids staff_company_id =
    is_user_admin actor && (is_platform_admin_role actor || elem staff_company_id actor_ids)

-- The ids of a list that are not in another, without repetitions and in order.
abbrev pub sorted_difference : List ℕ → List ℕ → List ℕ
sorted_difference xs ys = order_by leb (distinct [] (select (λ x. not (elem x ys)) xs))

-- The branch of a role that has no branches of its own.
abbrev pub validate_unbranched : Role → List ℕ → Text → Reply Unit
validate_unbranched actor company_ids detail =
    if not (is_empty company_ids)
    then refuse 400 detail
    else if not (is_platform_admin_role actor)
    then refuse 403 (codes "Cannot assign this role")
    else ok tt

unfoldable pub validate_company_ids_for_role : Role → List ℕ → Role → List ℕ → Reply Unit
validate_company_ids_for_role actor actor_ids target company_ids =
    if is_platform_admin_role target
    then validate_unbranched actor company_ids
        (codes "platform_admin must not have branch assignments")
    else if is_owner_role target
    then validate_unbranched actor company_ids (codes "owner must not have branch assignments")
    else if is_empty company_ids
    then refuse 400 (codes "At least one branch is required for this role")
    else if is_tenant_wide actor
    then ok tt
    else if is_subset company_ids actor_ids
    then ok tt
    else refused 403 (codes "Branches not allowed") (sorted_difference company_ids actor_ids)
