-- ===== src/Tests/Access.antt =====
-- Roles and scopes at concrete principals.
use yclients_project.Prelude.{◌≡◌, ◌⊎◌, refl, true, false, none, some, [], ◌∷◌, IsIn}
use yclients_project.Prelude.Text.{codes}
use yclients_project.Auth.{branch_admin, manager, barber}
use yclients_project.Auth.Hierarchy.{
  can_list_user, can_manage_user, assert_can_assign_role, assignable_roles, role_level,
  rank_at_or_below, same_rank, branch_scope_ok, validate_company_ids_for_role, is_user_admin,
  is_tenant_wide,
}
use yclients_project.Auth.Hierarchy.Rules.{RankAtOrBelow, IsBranchSubset, can_manage_user_sound}
use yclients_project.Auth.Metrics.{Group, money_metrics, money_payload_keys}
use yclients_project.Auth.Scope.{
  AccessContext, from_user, many_companies, build_company_scope, require_sync_company_ids,
}
use yclients_project.Auth.Scope.Views.{hidden_money_codes}
use yclients_project.Auth.Scope.Clamp.{person, everyone, effective_staff_selection}
use yclients_project.Auth.Scope.Bounds.{
  IsWithin, build_company_scope-IsWithin, IsSyncScope, require_sync_company_ids-IsSyncScope,
}
use yclients_project.Auth.Scope.Staff.{AllOwn, effective_staff_selection-AllOwn}
use yclients_project.Auth.Scope.Money.{IsHiddenKey, money_payload_keys_lem}

rules : Unit {0}
unfolding can_list_user can_manage_user assert_can_assign_role assignable_roles role_level
    rank_at_or_below same_rank branch_scope_ok validate_company_ids_for_role build_company_scope
    effective_staff_selection require_sync_company_ids
rules = tt

can_manage_user_sound_example :
    (is_user_admin branch_admin ≡ true)
    × RankAtOrBelow branch_admin manager
    × ((is_tenant_wide branch_admin ≡ true) ⊎ IsBranchSubset (5 ∷ []) (4 ∷ 5 ∷ []))
unfolding rules
can_manage_user_sound_example =
    can_manage_user_sound branch_admin (4 ∷ 5 ∷ []) manager (5 ∷ []) refl

abbrev colleague : AccessContext
colleague =
    from_user 1 barber (some 7) (some (4 ∷ 5 ∷ [])) none none
      (record { company = 4; staff = 40 } ∷ record { company = 5; staff = 50 } ∷ []) false

build_company_scope-IsWithin_example : IsWithin (4 ∷ 5 ∷ []) (many_companies (4 ∷ 5 ∷ []))
unfolding rules
build_company_scope-IsWithin_example =
    build_company_scope-IsWithin colleague none (some (5 ∷ 4 ∷ [])) (many_companies (4 ∷ 5 ∷ []))
      refl refl

effective_staff_selection-AllOwn_example : AllOwn colleague (5 ∷ []) (person 50)
unfolding rules
effective_staff_selection-AllOwn_example =
    effective_staff_selection-AllOwn colleague everyone (person 50) (some 5) none refl refl refl

require_sync_company_ids-IsSyncScope_example : IsSyncScope (4 ∷ 5 ∷ []) (some (5 ∷ []))
unfolding rules
require_sync_company_ids-IsSyncScope_example =
    require_sync_company_ids-IsSyncScope colleague (some (5 ∷ [])) (some (5 ∷ [])) refl refl

money_payload_keys_lem_example :
    (IsIn (codes "revenue") (money_payload_keys (hidden_money_codes colleague) Group.summary)
      → IsHiddenKey colleague Group.summary money_metrics (codes "revenue"))
    × (IsHiddenKey colleague Group.summary money_metrics (codes "revenue")
        → IsIn (codes "revenue") (money_payload_keys (hidden_money_codes colleague) Group.summary))
money_payload_keys_lem_example = money_payload_keys_lem colleague Group.summary (codes "revenue")
