-- ===== src/Portal/Ownership/Safety.antt =====
-- portal_tenant_ownership.py: whose a branch is after a reassignment, granted or refused.
use yclients_project.Prelude.{
  ℕ, ◌≡◌, ◌≢◌, ◌⊎◌, refl, sym, ap, ◌∙◌, Bool, true, false, some, arith, inl, inr, ◌==◌, elem, IsIn,
  Bool-cases,
}
use yclients_project.Auth.Tenancy.{Branch}
use yclients_project.Portal.Ownership.{
  Tenants, Link, tenant_has_business_users, credential_ids, reassign_branch_from_admin_only_tenant,
  tenant_of,
}
use yclients_project.Portal.Ownership.Reassign.{
  tenant_of_miss, tenant_of_hit, detach_branches, detach_links, detached, Outcome, had, kept, gave,
  outcome,
}

some_inj : {a b : ℕ} → some a ≡ some b → a ≡ b
some_inj h = cc h

module _ (branch : Branch) (target : ℕ) (db : Tenants) where
  -- What holds of the result, a database and whether the branch was given.
  abbrev pub IsGiven : Tenants × Bool → Type 0
  IsGiven result =
      (tenant_of branch.company_id result.0.branches ≡ some target)
      × ((other : ℕ)
          → other ≢ branch.company_id
          → tenant_of other result.0.branches ≡ tenant_of other db.branches)
      × ((link : Link)
          → IsIn link result.0.links
          → link.company_id ≡ branch.company_id
          → (branch.portal_account_id ≡ target)
            ⊎ (elem link.credential_id (credential_ids branch.portal_account_id db) ≡ false))

  outcome-IsGiven :
      (result : Tenants × Bool)
      → Outcome branch target db result
      → tenant_of branch.company_id db.branches ≡ some branch.portal_account_id
      → result.1 ≡ true
      → IsGiven result
  outcome-IsGiven _ (had same) stored h =
      (stored ∙ ap some same, λ other differs. refl, λ link i e. inl same)
  outcome-IsGiven _ (kept differs busy) stored h = cc
  outcome-IsGiven _ (gave differs free) stored h =
      let same = detach_branches branch.portal_account_id branch.company_id db in
      let before = ap (tenant_of branch.company_id) same in
      (
        tenant_of_hit branch.company_id target (detached branch target db).branches
            branch.portal_account_id (before ∙ stored),
        λ other apart.
            tenant_of_miss branch.company_id target other (detached branch target db).branches apart
            ∙ ap (tenant_of other) same,
        λ link i e. inr (detach_links branch.portal_account_id branch.company_id db link i e),
      )

  -- A granted reassignment gives the branch to the target, leaves the other branches where they are
  -- and no credential of the former tenant linked to the company.
  pub reassign_branch_gives :
      tenant_of branch.company_id db.branches ≡ some branch.portal_account_id
      → (reassign_branch_from_admin_only_tenant branch target db).1 ≡ true
      → IsGiven (reassign_branch_from_admin_only_tenant branch target db)
  reassign_branch_gives stored h =
      outcome-IsGiven (reassign_branch_from_admin_only_tenant branch target db)
        (outcome branch target db) stored h

  outcome_keeps :
      (result : Tenants × Bool) (company account : ℕ)
      → Outcome branch target db result
      → tenant_of branch.company_id db.branches ≡ some branch.portal_account_id
      → tenant_of company db.branches ≡ some account
      → tenant_has_business_users account db ≡ true
      → tenant_of company result.0.branches ≡ some account
  outcome_keeps _ company account (had same) stored owned busy = owned
  outcome_keeps _ company account (kept differs f) stored owned busy = owned
  outcome_keeps _ company account (gave differs free) stored owned busy =
      elim (Bool-cases (company == branch.company_id)) [
        | inl e ↦
            (let same : company ≡ branch.company_id = ground arith in
              let account_is : account ≡ branch.portal_account_id =
                some_inj (sym owned ∙ ap (λ z. tenant_of z db.branches) same ∙ stored) in
              cc (sym (ap (λ z. tenant_has_business_users z db) account_is) ∙ busy, free))
        | inr e ↦
            (let apart : company ≢ branch.company_id = λ z. ground arith in
              tenant_of_miss branch.company_id target company (detached branch target db).branches
                apart
              ∙ ap (tenant_of company)
                  (detach_branches branch.portal_account_id branch.company_id db)
              ∙ owned)
      ]

  -- No reassignment takes a branch from a tenant with business users.
  pub reassign_keeps_business :
      (company account : ℕ)
      → tenant_of branch.company_id db.branches ≡ some branch.portal_account_id
      → tenant_of company db.branches ≡ some account
      → tenant_has_business_users account db ≡ true
      → tenant_of company (reassign_branch_from_admin_only_tenant branch target db).0.branches
        ≡ some account
  reassign_keeps_business company account stored owned busy =
      outcome_keeps (reassign_branch_from_admin_only_tenant branch target db) company account
        (outcome branch target db) stored owned busy
