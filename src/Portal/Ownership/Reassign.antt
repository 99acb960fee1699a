-- ===== src/Portal/Ownership/Reassign.antt =====
-- portal_tenant_ownership.py: what a reassignment changes.
use yclients_project.Prelude.{
  ℕ, ◌≡◌, ◌≢◌, refl, sym, subst, map, is_empty, Bool, true, false, not, none, some, List, [], ◌∷◌,
  arith, inl, inr, ◌==◌, elem, IsIn, Bool-cases, Option-cases,
}
use yclients_project.Prelude.Rows.{IsIn-select}
use yclients_project.Auth.Tenancy.{Branch}
use yclients_project.Portal.Ownership.{
  give, owner_in, Tenants, Link, tenant_has_business_users, can_reassign_branch_from_tenant,
  credential_ids, is_stale_link, detach_source_credential_company_links, give_branch,
  reassign_branch_from_admin_only_tenant, tenant_of,
}

module _ (company target : ℕ) where
  give_miss :
      (other : ℕ) (b : Branch)
      → other ≢ company
      → owner_in other (give company target b) ≡ owner_in other b
  unfolding owner_in give
  give_miss other b h = elim (Bool-cases (b.company_id == company)) [
    | inl e ↦ (let miss : (b.company_id == other) ≡ false = ground arith in rw (e, miss) refl)
    | inr e ↦ rw e refl
  ]

  give_hit :
      (b : Branch) (owner : ℕ)
      → owner_in company b ≡ some owner
      → owner_in company (give company target b) ≡ some target
  unfolding owner_in give
  give_hit b owner h = ground arith

  give-none :
      (b : Branch) → owner_in company b ≡ none → owner_in company (give company target b) ≡ none
  unfolding owner_in give
  give-none b h = ground arith

  pub tenant_of_miss :
      (other : ℕ) (branches : List Branch)
      → other ≢ company
      → tenant_of other (map (give company target) branches) ≡ tenant_of other branches
  tenant_of_miss other [] h = refl
  tenant_of_miss other (b ∷ branches) h =
      rw (tenant_of_miss other branches h, give_miss other b h) refl

  tenant_of-none :
      (branches : List Branch)
      → tenant_of company branches ≡ none
      → tenant_of company (map (give company target) branches) ≡ none
  tenant_of-none [] h = refl
  tenant_of-none (b ∷ branches) h = elim (Option-cases (tenant_of company branches)) [
    | inl e ↦ rw (tenant_of-none branches e) (give-none b (rw e at h))
    | inr (here, e) ↦ cc (rw e at h)
  ]

  pub tenant_of_hit :
      (branches : List Branch) (owner : ℕ)
      → tenant_of company branches ≡ some owner
      → tenant_of company (map (give company target) branches) ≡ some target
  tenant_of_hit [] owner h = cc
  tenant_of_hit (b ∷ branches) owner h = elim (Option-cases (tenant_of company branches)) [
    | inl e ↦ rw (tenant_of-none branches e) (give_hit b owner (rw e at h))
    | inr (here, e) ↦ rw (tenant_of_hit branches here e) refl
  ]

pub detach_branches :
    (account company : ℕ) (db : Tenants)
    → (detach_source_credential_company_links account company db).branches ≡ db.branches
unfolding detach_source_credential_company_links
detach_branches account company db = ground arith

empty_elem : (ids : List ℕ) (a : ℕ) → is_empty ids ≡ true → elem a ids ≡ false
empty_elem [] a h = refl
empty_elem (x ∷ ids) a h = cc

-- No credential of the tenant is linked to the company any more.
pub detach_links :
    (account company : ℕ) (db : Tenants) (link : Link)
    → IsIn link (detach_source_credential_company_links account company db).links
    → link.company_id ≡ company
    → elem link.credential_id (credential_ids account db) ≡ false
unfolding detach_source_credential_company_links
detach_links account company db link i e =
    elim (Bool-cases (is_empty (credential_ids account db))) [
      | inl f ↦ empty_elem (credential_ids account db) link.credential_id f
      | inr f ↦
          (let (j, h) =
              IsIn-select (λ l. not (is_stale_link company (credential_ids account db) l)) link
                db.links (rw f at i) in
            ground arith)
    ]

module _ (branch : Branch) (target : ℕ) (db : Tenants) where
  abbrev pub moved : Tenants
  moved = (reassign_branch_from_admin_only_tenant branch target db).0

  abbrev pub detached : Tenants
  detached = detach_source_credential_company_links branch.portal_account_id branch.company_id db

  -- The three ways of the code: the target has the branch, the owner keeps it, it is given away.
  pub data Outcome : Tenants × Bool → Type 0 where
    had : branch.portal_account_id ≡ target → Outcome (db, true)
    kept :
        branch.portal_account_id ≢ target
        → tenant_has_business_users branch.portal_account_id db ≡ true
        → Outcome (db, false)
    gave :
        branch.portal_account_id ≢ target
        → tenant_has_business_users branch.portal_account_id db ≡ false
        → Outcome (give_branch branch.company_id target detached, true)

  eq_had :
      branch.portal_account_id ≡ target
      → reassign_branch_from_admin_only_tenant branch target db ≡ (db, true)
  unfolding reassign_branch_from_admin_only_tenant
  eq_had e = ground arith

  eq_kept :
      branch.portal_account_id ≢ target
      → tenant_has_business_users branch.portal_account_id db ≡ true
      → reassign_branch_from_admin_only_tenant branch target db ≡ (db, false)
  unfolding reassign_branch_from_admin_only_tenant can_reassign_branch_from_tenant
  eq_kept e h = ground arith

  eq_gave :
      branch.portal_account_id ≢ target
      → tenant_has_business_users branch.portal_account_id db ≡ false
      → reassign_branch_from_admin_only_tenant branch target db
        ≡ (give_branch branch.company_id target detached, true)
  unfolding reassign_branch_from_admin_only_tenant can_reassign_branch_from_tenant
  eq_gave e h = ground arith

  pub outcome : Outcome (reassign_branch_from_admin_only_tenant branch target db)
  outcome = elim (Bool-cases (branch.portal_account_id == target)) [
    | inl e ↦
        (let same : branch.portal_account_id ≡ target = ground arith in
          subst Outcome (sym (eq_had same)) (had same))
    | inr e ↦
        (let differs : branch.portal_account_id ≢ target = λ z. ground arith in
          elim (Bool-cases (tenant_has_business_users branch.portal_account_id db)) [
            | inl f ↦ subst Outcome (sym (eq_kept differs f)) (kept differs f)
            | inr f ↦ subst Outcome (sym (eq_gave differs f)) (gave differs f)
          ])
  ]
