-- ===== src/Auth/Hierarchy/Rules.antt =====
-- auth_hierarchy.py: what the rules allow, in terms of ranks and sets of branches.
use yclients_project.Prelude.{
  ℕ, ◌≤◌, ◌<◌, ◌≡◌, ◌≢◌, ◌⊎◌, refl, true, false, some, List, [], ◌∷◌, arith, inl, inr, IsIn,
  Option-cases, subset-IsIn, subset-intro,
}
use yclients_project.Auth.{Role, ok}
use yclients_project.Auth.Hierarchy.{
  rank, is_tenant_wide, is_user_admin, can_list_user, rank_at_or_below, role_level, same_rank,
  assignable_roles, outranks, can_manage_user, branch_scope_ok, assert_can_assign_role,
  validate_company_ids_for_role,
}

-- Some branch, and only branches of the other list.
abbrev pub IsBranchSubset : List ℕ → List ℕ → Type 0
IsBranchSubset ids actor_ids = (ids ≢ []) × ((a : ℕ) → IsIn a ids → IsIn a actor_ids)

-- The ranks of two roles, the second one not above, or strictly below, the first one.
abbrev pub RankAtOrBelow : Role → Role → Type 0
RankAtOrBelow actor target =
    (a : ℕ) × (t : ℕ) × (rank actor ≡ some a) × (rank target ≡ some t) × a ≤ t

abbrev pub RankBelow : Role → Role → Type 0
RankBelow actor target = (a : ℕ) × (t : ℕ) × (rank actor ≡ some a) × (rank target ≡ some t) × a < t

branch_scope_ok-IsBranchSubset :
    (actor_ids target_ids : List ℕ)
    → branch_scope_ok actor_ids target_ids ≡ true
    → IsBranchSubset target_ids actor_ids
unfolding branch_scope_ok
branch_scope_ok-IsBranchSubset actor_ids [] h = ground arith
branch_scope_ok-IsBranchSubset [] (t ∷ ts) h = ground arith
branch_scope_ok-IsBranchSubset (b ∷ bs) (t ∷ ts) h =
    (λ e. cc e, λ x i. subset-IsIn x (t ∷ ts) (b ∷ bs) h i)

IsBranchSubset-branch_scope_ok :
    (actor_ids target_ids : List ℕ)
    → IsBranchSubset target_ids actor_ids
    → branch_scope_ok actor_ids target_ids ≡ true
unfolding branch_scope_ok
IsBranchSubset-branch_scope_ok actor_ids [] h = absurd (h.0 refl)
IsBranchSubset-branch_scope_ok [] (t ∷ ts) h = absurd (h.1 t (inl refl))
IsBranchSubset-branch_scope_ok (b ∷ bs) (t ∷ ts) h = subset-intro (t ∷ ts) (b ∷ bs) h.1

RankAtOrBelow-intro :
    (actor target : Role) → rank_at_or_below actor target ≡ ok true → RankAtOrBelow actor target
unfolding rank_at_or_below role_level
RankAtOrBelow-intro actor target h = elim (Option-cases (rank actor)) [
  | inl e ↦ ground arith
  | inr (a, e) ↦ elim (Option-cases (rank target)) [
    | inl f ↦ ground arith
    | inr (t, f) ↦ (a, t, e, f, ground arith)
  ]
]

-- A user may be changed only by an administrator of users whose rank is not lower and who is either
-- tenant-wide or holds every branch of the user, of which there is one.
pub can_manage_user_sound :
    (actor : Role) (actor_ids : List ℕ) (target : Role) (target_ids : List ℕ)
    → can_manage_user actor actor_ids target target_ids ≡ ok true
    → (is_user_admin actor ≡ true)
      × RankAtOrBelow actor target
      × ((is_tenant_wide actor ≡ true) ⊎ IsBranchSubset target_ids actor_ids)
unfolding can_manage_user can_list_user rank_at_or_below role_level same_rank
can_manage_user_sound actor actor_ids target target_ids h =
    let admins : is_user_admin actor ≡ true = ground arith in
    let scoped : (is_tenant_wide actor ≡ true) ⊎ (branch_scope_ok actor_ids target_ids ≡ true) =
      ground arith in
    (
      admins,
      RankAtOrBelow-intro actor target (ground arith),
      elim scoped [
        | inl wide ↦ inl wide
        | inr inside ↦ inr (branch_scope_ok-IsBranchSubset actor_ids target_ids inside)
      ],
    )

-- Whom an actor may change, it may list.
pub can_manage_user-can_list_user :
    (actor : Role) (actor_ids : List ℕ) (target : Role) (target_ids : List ℕ)
    → can_manage_user actor actor_ids target target_ids ≡ ok true
    → can_list_user actor actor_ids target target_ids ≡ ok true
unfolding can_manage_user
can_manage_user-can_list_user actor actor_ids target target_ids h = ground arith

assigned-outranked :
    (actor target : Role) (a : ℕ)
    → rank actor ≡ some a
    → assert_can_assign_role actor target ≡ ok tt
    → outranks a target ≡ true
unfolding assert_can_assign_role assignable_roles role_level
assigned-outranked actor target a e h = ground arith

outranked-RankBelow :
    (actor target : Role) (a : ℕ)
    → rank actor ≡ some a
    → outranks a target ≡ true
    → RankBelow actor target
outranked-RankBelow actor target a e h = elim (Option-cases (rank target)) [
  | inl f ↦ ground arith
  | inr (t, f) ↦ (a, t, e, f, ground arith)
]

-- A role that may be given stands strictly below the role of the one who gives it.
pub assert_can_assign_role_lem :
    (actor target : Role) → assert_can_assign_role actor target ≡ ok tt → RankBelow actor target
unfolding assert_can_assign_role assignable_roles role_level
assert_can_assign_role_lem actor target h = elim (Option-cases (rank actor)) [
  | inl e ↦ ground arith
  | inr (a, e) ↦ outranked-RankBelow actor target a e (assigned-outranked actor target a e h)
]

-- Nobody may list or change the one who gave it its role.
pub assigned_cannot_manage :
    (actor target : Role) (actor_ids target_ids : List ℕ)
    → assert_can_assign_role actor target ≡ ok tt
    → (can_list_user target target_ids actor actor_ids ≡ ok false)
      × (can_manage_user target target_ids actor actor_ids ≡ ok false)
unfolding can_manage_user can_list_user rank_at_or_below role_level
assigned_cannot_manage actor target actor_ids target_ids h =
    let (a, t, e, f, below) = assert_can_assign_role_lem actor target h in
    (ground arith, ground arith)

-- An administrator of users may change the user that it was allowed to create with these branches.
pub created_can_be_managed :
    (actor : Role) (actor_ids : List ℕ) (target : Role) (company_ids : List ℕ)
    → is_user_admin actor ≡ true
    → assert_can_assign_role actor target ≡ ok tt
    → validate_company_ids_for_role actor actor_ids target company_ids ≡ ok tt
    → can_manage_user actor actor_ids target company_ids ≡ ok true
unfolding can_manage_user can_list_user rank_at_or_below role_level same_rank branch_scope_ok
    validate_company_ids_for_role
created_can_be_managed actor actor_ids target company_ids admins assigned valid =
    let (a, t, e, f, below) = assert_can_assign_role_lem actor target assigned in ground arith
