-- ===== src/Auth/Scope/Staff.antt =====
-- auth_scope.py: the staff rows that a personal role reads.
use yclients_project.Prelude.{
  ℕ, ◌≡◌, ◌⊎◌, refl, ap, subst, ◌∙◌, true, false, Option, none, some, List, [], ◌∷◌, map, arith,
  Bool-cases, inl, inr, IsIn, elem, is_subset, is_empty, is_none, elem→IsIn, subset-IsIn,
  IsIn-distinct, IsIn-map,
}
use yclients_project.Prelude.Rows.{select, IsIn-select}
use yclients_project.Auth.{ok}
use yclients_project.Auth.Scope.{AccessContext, StaffKey, has_staff_view}
use yclients_project.Auth.Scope.Clamp.{
  Selection, everyone, person, people, staff_scope, own_staff, staff_id_rows, clamp_to,
  effective_staff_selection,
}
use yclients_project.Auth.Scope.Bounds.{Answers, Answers-ok}

-- A selection of staff that is not everyone, all of it among these.
abbrev pub IsAmong : List ℕ → Selection → Type 0
IsAmong own everyone = ⊥
IsAmong own (person staff) = IsIn staff own
IsAmong own (people staff) = (a : ℕ) → IsIn a staff → IsIn a own

clamp-Answers :
    (own : List ℕ) (requested : Selection) → Answers (IsAmong own) (clamp_to own requested)
clamp-Answers [] requested = tt
clamp-Answers (staff ∷ []) everyone = inl refl
clamp-Answers (staff ∷ next ∷ own) everyone = λ a i. i
clamp-Answers (staff ∷ own) (person s) = elim (Bool-cases (is_subset (s ∷ []) (staff ∷ own))) [
  | inl e ↦ rw e (subset-IsIn s (s ∷ []) (staff ∷ own) e (inl refl))
  | inr e ↦ rw e tt
]
clamp-Answers (staff ∷ own) (people group) = elim (Bool-cases (is_subset group (staff ∷ own))) [
  | inl e ↦ rw e (λ a i. subset-IsIn a group (staff ∷ own) e i)
  | inr e ↦ rw e tt
]

-- The staff rows of a principal in some branches: its rows there, or, if it has no keys, its one
-- row, in whatever branch that is.
pub data IsOwn (ctx : AccessContext) (scope_ids : List ℕ) (staff : ℕ) : Type 0 where
  keyed :
      (company : ℕ)
      → IsIn company scope_ids
      → IsIn (record { company = company; staff = staff }) ctx.staff_keys
      → IsOwn ctx scope_ids staff
  single : ctx.staff_keys ≡ [] → ctx.staff_id ≡ some staff → IsOwn ctx scope_ids staff

abbrev pub AllOwn : AccessContext → List ℕ → Selection → Type 0
AllOwn ctx scope_ids everyone = ⊥
AllOwn ctx scope_ids (person staff) = IsOwn ctx scope_ids staff
AllOwn ctx scope_ids (people staff) = (a : ℕ) → IsIn a staff → IsOwn ctx scope_ids a

own_staff-IsOwn :
    (ctx : AccessContext) (scope_ids : List ℕ) (a : ℕ)
    → IsIn a (own_staff ctx scope_ids)
    → IsOwn ctx scope_ids a
own_staff-IsOwn ctx scope_ids a i =
    let inside = λ (key : StaffKey). elem key.company scope_ids in
    let staff_of = λ (key : StaffKey). key.staff in
    let (key, j, e) =
      IsIn-map staff_of a (select inside ctx.staff_keys)
        (IsIn-distinct a [] (map staff_of (select inside ctx.staff_keys)) i) in
    let (k, h) = IsIn-select inside key ctx.staff_keys j in
    keyed key.company (elem→IsIn key.company scope_ids h)
      (subst (λ z. IsIn (record { company = key.company; staff = z }) ctx.staff_keys) e k)

single_row-IsOwn :
    (ctx : AccessContext) (scope_ids : List ℕ) (a : ℕ) (row : Option ℕ)
    → ctx.staff_keys ≡ []
    → ctx.staff_id ≡ row
    → IsIn a (staff_id_rows row)
    → IsOwn ctx scope_ids a
single_row-IsOwn ctx scope_ids a none keys e i = absurd i
single_row-IsOwn ctx scope_ids a (some staff) keys e (inl q) = single keys (e ∙ ap some q)
single_row-IsOwn ctx scope_ids a (some staff) keys e (inr i) = absurd i

all-AllOwn :
    (ctx : AccessContext) (scope_ids own : List ℕ) (selection : Selection)
    → ((a : ℕ) → IsIn a own → IsOwn ctx scope_ids a)
    → IsAmong own selection
    → AllOwn ctx scope_ids selection
all-AllOwn ctx scope_ids own everyone f h = h
all-AllOwn ctx scope_ids own (person staff) f h = f staff h
all-AllOwn ctx scope_ids own (people staff) f h = λ a i. f a (h a i)

-- What a clamp to rows of the principal answers.
clamp-AllOwn :
    (ctx : AccessContext) (scope_ids own : List ℕ) (requested selection : Selection)
    → ((a : ℕ) → IsIn a own → IsOwn ctx scope_ids a)
    → clamp_to own requested ≡ ok selection
    → AllOwn ctx scope_ids selection
clamp-AllOwn ctx scope_ids own requested selection f h =
    all-AllOwn ctx scope_ids own selection f
      (Answers-ok (IsAmong own) (clamp_to own requested) selection (clamp-Answers own requested) h)

is_empty-nil : {A : Type 0} (xs : List A) → is_empty xs ≡ true → xs ≡ []
is_empty-nil [] h = refl
is_empty-nil (x ∷ xs) h = ground arith

selection_clamped :
    (ctx : AccessContext) (requested selection : Selection) (company_id : Option ℕ)
    (allowed_company_ids : Option (List ℕ))
    → ctx.full_access ≡ false
    → has_staff_view ctx.role ≡ false
    → effective_staff_selection ctx requested company_id allowed_company_ids ≡ ok selection
    → ((is_empty ctx.staff_keys ≡ false)
        × (clamp_to (own_staff ctx (staff_scope ctx company_id allowed_company_ids)) requested
            ≡ ok selection))
      ⊎ ((is_empty ctx.staff_keys ≡ true)
          × (clamp_to (staff_id_rows ctx.staff_id) requested ≡ ok selection))
unfolding effective_staff_selection
selection_clamped ctx requested selection company_id allowed_company_ids scoped personal h =
    elim (Bool-cases (is_empty ctx.staff_keys)) [
      | inr e ↦ elim (Bool-cases (is_none ctx.staff_id)) [
        | inl f ↦ inl (e, rw (scoped, personal, e, f, effective_staff_selection) at h)
        | inr f ↦ inl (e, rw (scoped, personal, e, f, effective_staff_selection) at h)
      ]
      | inl e ↦ elim (Bool-cases (is_none ctx.staff_id)) [
        | inl f ↦ ground arith
        | inr f ↦ inr (e, ground arith)
      ]
    ]

-- A principal without full access and without a view of the whole staff is never given everyone:
-- if it has staff keys, it reads only rows of its keys in the branches of the request, and if it
-- has none, only its one `staff_id`, whatever the branch of that row.
pub effective_staff_selection-AllOwn :
    (ctx : AccessContext) (requested selection : Selection) (company_id : Option ℕ)
    (allowed_company_ids : Option (List ℕ))
    → ctx.full_access ≡ false
    → has_staff_view ctx.role ≡ false
    → effective_staff_selection ctx requested company_id allowed_company_ids ≡ ok selection
    → AllOwn ctx (staff_scope ctx company_id allowed_company_ids) selection
effective_staff_selection-AllOwn ctx requested selection company_id allowed_company_ids scoped
      personal h =
    let scope_ids = staff_scope ctx company_id allowed_company_ids in
    elim (selection_clamped ctx requested selection company_id allowed_company_ids scoped personal
      h) [
        | inl (e, q) ↦
            (clamp-AllOwn ctx scope_ids (own_staff ctx scope_ids) requested selection
              (λ a i. own_staff-IsOwn ctx scope_ids a i) q)
        | inr (e, q) ↦
            (clamp-AllOwn ctx scope_ids (staff_id_rows ctx.staff_id) requested selection
              (λ a i.
                single_row-IsOwn ctx scope_ids a ctx.staff_id (is_empty-nil ctx.staff_keys e) refl
                  i)
              q)
      ]
