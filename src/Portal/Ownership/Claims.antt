-- ===== src/Portal/Ownership/Claims.antt =====
-- data_sources.py `companies_claimed_elsewhere`: which locations are claimed.
use yclients_project.Prelude.{
  ℕ, ◌≡◌, refl, ap, ◌∙◌, Bool, true, false, Option, none, some, List, [], ◌∷◌, any, subst, sym,
  arith, inl, inr, distinct, distinct-IsIn, IsIn-distinct, IsIn, Bool-cases, Option-cases,
}
use yclients_project.Prelude.Rows.{IsIn-select, select-IsIn}
use yclients_project.Prelude.Text.{Text}
use yclients_project.Auth.{is_platform_admin_role}
use yclients_project.Auth.Sessions.{User}
use yclients_project.Portal.Ownership.{
  Company, Tenants, holds, is_business_user, tenant_has_business_users,
  can_reassign_branch_from_tenant, tenant_of, company_ids_of, is_taken, companies_claimed_elsewhere,
}
use yclients_project.Portal.Ownership.Companies.{
  some_row, row_some, StandsFor, ids-StandsFor, StandsFor-ids,
}

-- The company belongs to another tenant, which has a user who is not a platform administrator.
pub record IsClaim (account : Option ℕ) (db : Tenants) (company : ℕ) : Type 0 where
  pub owner : ℕ
  pub owned : tenant_of company db.branches ≡ some owner
  pub elsewhere : holds account owner ≡ false
  pub user : User
  pub known : IsIn user db.users
  pub member : user.portal_account_id ≡ some owner
  pub business : is_platform_admin_role user.role ≡ false

holds_lem : (a : Option ℕ) (n : ℕ) → holds a n ≡ true → a ≡ some n
holds_lem none n h = cc
holds_lem (some m) n h = ap some (ground arith)

holds_self : (a : Option ℕ) (n : ℕ) → a ≡ some n → holds a n ≡ true
holds_self a n e = ground arith

taken_owner :
    (account : Option ℕ) (db : Tenants) (company : ℕ)
    → is_taken account db company ≡ true
    → (owner : ℕ) × (tenant_of company db.branches ≡ some owner)
      × (holds account owner ≡ false)
      × (tenant_has_business_users owner db ≡ true)
unfolding is_taken can_reassign_branch_from_tenant
taken_owner account db company h = elim (Option-cases (tenant_of company db.branches)) [
  | inl e ↦ ground arith
  | inr (owner, e) ↦ (owner, e, ground arith, ground arith)
]

owner_taken :
    (account : Option ℕ) (db : Tenants) (company owner : ℕ)
    → tenant_of company db.branches ≡ some owner
    → holds account owner ≡ false
    → tenant_has_business_users owner db ≡ true
    → is_taken account db company ≡ true
unfolding is_taken can_reassign_branch_from_tenant
owner_taken account db company owner e h busy = ground arith

business_lem :
    (owner : ℕ) (user : User)
    → is_business_user owner user ≡ true
    → (user.portal_account_id ≡ some owner) × (is_platform_admin_role user.role ≡ false)
business_lem owner user h = (holds_lem user.portal_account_id owner (ground arith), ground arith)

taken-IsClaim :
    (account : Option ℕ) (db : Tenants) (company : ℕ)
    → is_taken account db company ≡ true
    → IsClaim account db company
unfolding tenant_has_business_users
taken-IsClaim account db company h =
    let (owner, e, away, busy) = taken_owner account db company h in
    let (user, i, f) = some_row (is_business_user owner) db.users busy in
    let (member, business) = business_lem owner user f in
    record {
      owner = owner;
      owned = e;
      elsewhere = away;
      user = user;
      known = i;
      member = member;
      business = business;
    }

IsClaim-taken :
    (account : Option ℕ) (db : Tenants) (company : ℕ)
    → IsClaim account db company
    → is_taken account db company ≡ true
unfolding tenant_has_business_users
IsClaim-taken account db company claim =
    let member = holds_self claim.user.portal_account_id claim.owner claim.member in
    let is_one : is_business_user claim.owner claim.user ≡ true =
      rw (member, claim.business) refl in
    owner_taken account db company claim.owner claim.owned claim.elsewhere
      (row_some (is_business_user claim.owner) claim.user db.users claim.known is_one)

any_some : (p : ℕ → Bool) (xs : List ℕ) → any p xs ≡ true → (x : ℕ) × IsIn x xs × (p x ≡ true)
any_some p [] h = cc
any_some p (x ∷ xs) h = elim (Bool-cases (p x)) [
  | inl e ↦ (x, inl refl, e)
  | inr e ↦ let (y, i, f) = any_some p xs (rw e at h) in (y, inr i, f)
]

some_any : (p : ℕ → Bool) (x : ℕ) (xs : List ℕ) → IsIn x xs → p x ≡ true → any p xs ≡ true
some_any p x [] i e = absurd i
some_any p x (y ∷ xs) (inl q) e = rw (ap p q ∙ e) refl
some_any p x (y ∷ xs) (inr i) e = elim (Bool-cases (p y)) [
  | inl f ↦ rw f refl
  | inr f ↦ rw f (some_any p x xs i e)
]

module _ (source_type : Text) (external_ids : List ℕ) (account : Option ℕ) (db : Tenants)
    (external_id : ℕ) where
  -- A company that the location stands for is claimed.
  abbrev pub HasClaim : Type 0
  HasClaim =
      (company : Company) × IsIn company db.companies
      × StandsFor source_type external_id db.companies company
      × IsClaim account db company.id

  has_taken : ℕ → Bool
  has_taken e = any (is_taken account db) (company_ids_of source_type e db.companies)

  -- A location is reported exactly when it was asked for and a company that stands for it, by its
  -- external id or, if there is none, as a row from before external ids, belongs to another tenant
  -- with a business user.
  pub companies_claimed_elsewhere_lem :
      (IsIn external_id (companies_claimed_elsewhere source_type external_ids account db)
        → IsIn external_id external_ids × HasClaim)
      × (IsIn external_id external_ids
          → HasClaim
          → IsIn external_id (companies_claimed_elsewhere source_type external_ids account db))
  unfolding companies_claimed_elsewhere has_taken
  companies_claimed_elsewhere_lem = (
    λ i.
        (let (j, h) = IsIn-select has_taken external_id (distinct [] external_ids) i in
          let (id, k, taken) =
            any_some (is_taken account db) (company_ids_of source_type external_id db.companies)
              h in
          let (company, here, same, stands) =
            ids-StandsFor source_type external_id id db.companies k in
          (
            IsIn-distinct external_id [] external_ids j,
            (
              company,
              here,
              stands,
              subst (IsClaim account db) (sym same) (taken-IsClaim account db id taken),
            ),
          )),
    λ i claim.
        (let (company, here, stands, c) = claim in
          select-IsIn has_taken external_id (distinct [] external_ids)
            (distinct-IsIn external_id [] external_ids i refl)
            (some_any (is_taken account db) company.id
              (company_ids_of source_type external_id db.companies)
              (StandsFor-ids source_type external_id company db.companies here stands)
              (IsClaim-taken account db company.id c))),
  )
