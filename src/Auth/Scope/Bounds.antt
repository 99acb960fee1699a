-- ===== src/Auth/Scope/Bounds.antt =====
-- auth_scope.py: the branches of a scope and the branches of its principal.
use yclients_project.Prelude.{
  ℕ, ◌≡◌, ◌≢◌, refl, ap, true, false, not, Option, none, some, List, [], ◌∷◌, arith, Bool-cases,
  inl, inr, IsIn, elem, is_subset, is_empty, elem→IsIn, subset-IsIn, distinct, subst, distinct-IsIn,
  IsIn-distinct, leb,
}
use yclients_project.Prelude.Rows.{select, IsIn-order_by, order_by-IsIn, select-IsIn}
use yclients_project.Auth.{Reply, ok, refused}
use yclients_project.Auth.Scope.{
  AccessContext, CompanyScope, one_company, many_companies, sorted_set, whole_scope, ids_or_empty,
  pick_company, build_company_scope, require_sync_company_ids,
}

-- Every branch that a scope reads is among these ones: one of them, or a list of some of them.
pub data IsWithin (allowed : List ℕ) : CompanyScope → Type 0 where
  one : (company : ℕ) → IsIn company allowed → IsWithin allowed (one_company (some company))
  many :
      (ids : List ℕ)
      → ids ≢ []
      → ((a : ℕ) → IsIn a ids → IsIn a allowed)
      → IsWithin allowed (many_companies ids)

IsIn-sorted_set : (a : ℕ) (ids : List ℕ) → IsIn a (sorted_set ids) → IsIn a ids
IsIn-sorted_set a ids i = IsIn-distinct a [] ids (IsIn-order_by leb a (distinct [] ids) i)

sorted_set-nonempty : (ids : List ℕ) → is_empty ids ≡ false → sorted_set ids ≢ []
sorted_set-nonempty [] h e = ground arith
sorted_set-nonempty (x ∷ xs) h e =
    let i =
      order_by-IsIn leb x (distinct [] (x ∷ xs)) (distinct-IsIn x [] (x ∷ xs) (inl refl) refl) in
    subst (λ z. IsIn x z) e i

whole_scope-IsWithin :
    (allowed : List ℕ) → is_empty allowed ≡ false → IsWithin allowed (whole_scope allowed)
whole_scope-IsWithin [] h = ground arith
whole_scope-IsWithin (a ∷ []) h = one a (inl refl)
whole_scope-IsWithin (a ∷ b ∷ ids) h = many (a ∷ b ∷ ids) (λ e. cc e) (λ x i. i)

-- What holds of the value of a reply that is not a refusal.
abbrev pub Answers : {A : Type 0} → (A → Type 0) → Reply A → Type 0
Answers P (ok x) = P x
Answers P (refused status detail ids) = Unit

pub Answers-ok : {A : Type 0} (P : A → Type 0) (r : Reply A) (x : A) → Answers P r → r ≡ ok x → P x
Answers-ok P r x a h = subst (Answers P) h a

group-IsWithin :
    (allowed group : List ℕ)
    → is_empty group ≡ false
    → is_subset group allowed ≡ true
    → IsWithin allowed (many_companies (sorted_set group))
group-IsWithin allowed group h sub =
    many (sorted_set group) (sorted_set-nonempty group h)
      (λ a i. subset-IsIn a group allowed sub (IsIn-sorted_set a group i))

pick_company-IsWithin :
    (allowed : List ℕ) (requested : Option ℕ)
    → is_empty allowed ≡ false
    → Answers (IsWithin allowed) (pick_company allowed requested)
pick_company-IsWithin allowed none h = whole_scope-IsWithin allowed h
pick_company-IsWithin allowed (some company) h = elim (Bool-cases (elem company allowed)) [
  | inl e ↦ rw e (one company (elem→IsIn company allowed e))
  | inr e ↦ rw e tt
]

scope-Answers :
    (ctx : AccessContext) (requested_company_id : Option ℕ)
    (requested_company_ids : Option (List ℕ))
    → ctx.full_access ≡ false
    → Answers
        (IsWithin (ids_or_empty ctx.company_ids))
        (build_company_scope ctx requested_company_id requested_company_ids)
unfolding build_company_scope
scope-Answers ctx requested_company_id requested_company_ids scoped =
    let allowed = ids_or_empty ctx.company_ids in
    let group = ids_or_empty requested_company_ids in
    elim (Bool-cases (is_empty allowed)) [
      | inl e ↦ rw (scoped, e) tt
      | inr e ↦ elim (Bool-cases (is_empty group)) [
        | inl f ↦ rw (scoped, e, f) (pick_company-IsWithin allowed requested_company_id e)
        | inr f ↦ elim (Bool-cases (is_subset group allowed)) [
          | inl sub ↦ rw (scoped, e, f, sub) (group-IsWithin allowed group f sub)
          | inr other ↦ rw (scoped, e, f, other) tt
        ]
      ]
    ]

-- A scope that is built for a user reads at least one branch, and only branches of the user.
pub build_company_scope-IsWithin :
    (ctx : AccessContext) (requested_company_id : Option ℕ)
    (requested_company_ids : Option (List ℕ)) (scope : CompanyScope)
    → ctx.full_access ≡ false
    → build_company_scope ctx requested_company_id requested_company_ids ≡ ok scope
    → IsWithin (ids_or_empty ctx.company_ids) scope
build_company_scope-IsWithin ctx requested_company_id requested_company_ids scope scoped h =
    Answers-ok (IsWithin (ids_or_empty ctx.company_ids))
      (build_company_scope ctx requested_company_id requested_company_ids) scope
      (scope-Answers ctx requested_company_id requested_company_ids scoped) h

-- The branches that a synchronization may be limited to.
abbrev pub IsSyncScope : List ℕ → Option (List ℕ) → Type 0
IsSyncScope allowed result =
    (ids : List ℕ) × (result ≡ some ids) × (ids ≢ []) × ((a : ℕ) → IsIn a ids → IsIn a allowed)

is_empty-none : (a : ℕ) (ids : List ℕ) → is_empty ids ≡ true → ¬ (IsIn a ids)
is_empty-none a [] h i = i
is_empty-none a (x ∷ xs) h i = ground arith

no_forbidden :
    (requested allowed : List ℕ) (a : ℕ)
    → is_empty (sorted_set (select (λ x. not (elem x allowed)) requested)) ≡ true
    → IsIn a requested
    → IsIn a allowed
no_forbidden requested allowed a h i = elim (Bool-cases (elem a allowed)) [
  | inl e ↦ elem→IsIn a allowed e
  | inr e ↦
      (let outside = select (λ x. not (elem x allowed)) requested in
        absurd (
          is_empty-none a (sorted_set outside) h (
            order_by-IsIn leb a (distinct [] outside) (
              distinct-IsIn a [] outside
                (select-IsIn (λ x. not (elem x allowed)) a requested i (ap not e)) refl))))
]

nonempty : (ids : List ℕ) → is_empty ids ≡ false → ids ≢ []
nonempty ids h e = ground arith

sync-Answers :
    (ctx : AccessContext) (requested : Option (List ℕ))
    → ctx.full_access ≡ false
    → Answers (IsSyncScope (ids_or_empty ctx.company_ids)) (require_sync_company_ids ctx requested)
unfolding require_sync_company_ids
sync-Answers ctx requested scoped =
    let allowed = ids_or_empty ctx.company_ids in
    let wanted = distinct [] (ids_or_empty requested) in
    let forbidden = sorted_set (select (λ x. not (elem x allowed)) wanted) in
    elim (Bool-cases (is_empty allowed)) [
      | inl e ↦ rw (scoped, e) tt
      | inr e ↦ elim (Bool-cases (is_empty wanted)) [
        | inl f ↦ rw (scoped, e, f) (allowed, refl, nonempty allowed e, λ a i. i)
        | inr f ↦ elim (Bool-cases (is_empty forbidden)) [
          | inl g ↦
              (rw (scoped, e, f, g)
                (wanted, refl, nonempty wanted f, λ a i. no_forbidden wanted allowed a g i))
          | inr g ↦ rw (scoped, e, f, g) tt
        ]
      ]
    ]

-- A user's synchronization is limited to some of the user's branches, and never left unlimited.
pub require_sync_company_ids-IsSyncScope :
    (ctx : AccessContext) (requested result : Option (List ℕ))
    → ctx.full_access ≡ false
    → require_sync_company_ids ctx requested ≡ ok result
    → IsSyncScope (ids_or_empty ctx.company_ids) result
require_sync_company_ids-IsSyncScope ctx requested result scoped h =
    Answers-ok (IsSyncScope (ids_or_empty ctx.company_ids)) (require_sync_company_ids ctx requested)
      result (sync-Answers ctx requested scoped) h
