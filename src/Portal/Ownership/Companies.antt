-- ===== src/Portal/Ownership/Companies.antt =====
-- data_sources.py `companies_claimed_elsewhere`: which companies a location stands for.
use yclients_project.Prelude.{
  ℕ, ◌≡◌, ◌⊎◌, refl, sym, ap, subst, ◌∙◌, Bool, true, false, not, List, [], ◌∷◌, map, arith, inl,
  inr, IsIn, IsIn-map, map-IsIn, Bool-cases, is_empty,
}
use yclients_project.Prelude.Rows.{select, IsIn-select, select-IsIn}
use yclients_project.Prelude.Text.{Text}
use yclients_project.Portal.Ownership.{Company, is_external, is_legacy, legacy_ids, company_ids_of}

pub some_row :
    {A : Type 0} (p : A → Bool) (rows : List A)
    → not (is_empty (select p rows)) ≡ true
    → (row : A) × IsIn row rows × (p row ≡ true)
some_row p [] h = cc
some_row p (row ∷ rows) h = elim (Bool-cases (p row)) [
  | inl e ↦ (row, inl refl, e)
  | inr e ↦ let (r, i, f) = some_row p rows (rw e at h) in (r, inr i, f)
]

pub row_some :
    {A : Type 0} (p : A → Bool) (row : A) (rows : List A)
    → IsIn row rows
    → p row ≡ true
    → not (is_empty (select p rows)) ≡ true
row_some p row [] i e = absurd i
row_some p row (r ∷ rows) (inl q) e = rw (ap p q ∙ e) refl
row_some p row (r ∷ rows) (inr i) e = elim (Bool-cases (p r)) [
  | inl f ↦ rw f refl
  | inr f ↦ rw f (row_some p row rows i e)
]

negated : (b : Bool) → not b ≡ true → b ≡ false
negated true h = cc
negated false h = refl

none_selected :
    {A : Type 0} (p : A → Bool) (row : A) (rows : List A)
    → is_empty (select p rows) ≡ true
    → IsIn row rows
    → p row ≡ false
none_selected p row rows h i = elim (Bool-cases (p row)) [
  | inl e ↦ absurd (cc (negated (is_empty (select p rows)) (row_some p row rows i e), h))
  | inr e ↦ e
]

-- A company with the external id; or, if there is none, the row with this id that has no external
-- id.
abbrev pub StandsFor : Text → ℕ → List Company → Company → Type 0
StandsFor source_type external_id companies company =
    (is_external source_type external_id company ≡ true)
    ⊎ ((is_legacy external_id company ≡ true)
        × ((other : Company)
            → IsIn other companies
            → is_external source_type external_id other ≡ false))

map_empty :
    (f : Company → ℕ) (rows : List Company) → is_empty (map f rows) ≡ true → is_empty rows ≡ true
map_empty f [] h = refl
map_empty f (row ∷ rows) h = cc

one_of : {a b : ℕ} → IsIn b (a ∷ []) → a ≡ b
one_of (inl e) = e
one_of (inr j) = absurd j

in_nonempty : (a : ℕ) (xs : List ℕ) → IsIn a xs → is_empty xs ≡ false
in_nonempty a [] i = absurd i
in_nonempty a (x ∷ xs) i = refl

select-nothing :
    {A : Type 0} (p : A → Bool) (rows : List A)
    → ((row : A) → IsIn row rows → p row ≡ false)
    → select p rows ≡ []
select-nothing p [] h = refl
select-nothing p (row ∷ rows) h =
    rw (h row (inl refl), select-nothing p rows (λ r i. h r (inr i))) refl

module _ (source_type : Text) (external_id : ℕ) where
  matched : List Company → List ℕ
  matched companies =
      map (λ (c : Company). c.id) (select (is_external source_type external_id) companies)

  ids_matched :
      (companies : List Company)
      → is_empty (matched companies) ≡ false
      → company_ids_of source_type external_id companies ≡ matched companies
  unfolding company_ids_of matched
  ids_matched companies e = ground arith

  ids_legacy :
      (companies : List Company)
      → is_empty (matched companies) ≡ true
      → company_ids_of source_type external_id companies ≡ legacy_ids external_id companies
  unfolding company_ids_of matched
  ids_legacy companies e = ground arith

  empty_matched :
      (companies : List Company)
      → is_empty (matched companies) ≡ true
      → is_empty (select (is_external source_type external_id) companies) ≡ true
  unfolding matched
  empty_matched companies h =
      map_empty (λ (c : Company). c.id) (select (is_external source_type external_id) companies) h

  legacy_id : (company : Company) → is_legacy external_id company ≡ true → company.id ≡ external_id
  legacy_id company h = ground arith

  legacy_there :
      (companies : List Company)
      → not (is_empty (select (is_legacy external_id) companies)) ≡ true
      → legacy_ids external_id companies ≡ external_id ∷ []
  legacy_there companies h =
      rw (negated (is_empty (select (is_legacy external_id) companies)) h) refl

  legacy-IsIn :
      (id : ℕ) (companies : List Company)
      → IsIn id (legacy_ids external_id companies)
      → (company : Company) × IsIn company companies
        × (company.id ≡ id)
        × (is_legacy external_id company ≡ true)
  legacy-IsIn id companies i =
      elim (Bool-cases (is_empty (select (is_legacy external_id) companies))) [
        | inl e ↦ absurd (rw e at i)
        | inr e ↦
            (let (company, j, f) = some_row (is_legacy external_id) companies (rw e refl) in
              let same : external_id ≡ id = one_of (rw e at i) in
              (company, j, legacy_id company f ∙ same, f))
      ]

  pub ids-StandsFor :
      (id : ℕ) (companies : List Company)
      → IsIn id (company_ids_of source_type external_id companies)
      → (company : Company) × IsIn company companies
        × (company.id ≡ id)
        × StandsFor source_type external_id companies company
  unfolding matched
  ids-StandsFor id companies i = elim (Bool-cases (is_empty (matched companies))) [
    | inl e ↦
        (let (company, j, same, f) =
            legacy-IsIn id companies (subst (λ z. IsIn id z) (ids_legacy companies e) i) in
          (
            company,
            j,
            same,
            inr (
              f,
              λ other k.
                  none_selected (is_external source_type external_id) other companies
                    (empty_matched companies e) k,
            ),
          ))
    | inr e ↦
        (let (company, j, same) =
            IsIn-map (λ (c : Company). c.id) id
              (select (is_external source_type external_id) companies)
              (subst (λ z. IsIn id z) (ids_matched companies e) i) in
          let (k, f) = IsIn-select (is_external source_type external_id) company companies j in
          (company, k, same, inl f))
  ]

  pub StandsFor-ids :
      (company : Company) (companies : List Company)
      → IsIn company companies
      → StandsFor source_type external_id companies company
      → IsIn company.id (company_ids_of source_type external_id companies)
  unfolding matched
  StandsFor-ids company companies i (inl e) =
      let there : IsIn company.id (matched companies) =
        map-IsIn (λ (c : Company). c.id) company
          (select (is_external source_type external_id) companies)
          (select-IsIn (is_external source_type external_id) company companies i e) in
      subst (λ z. IsIn company.id z)
        (sym (ids_matched companies (in_nonempty company.id (matched companies) there))) there
  StandsFor-ids company companies i (inr (legacy, others)) =
      let bare : is_empty (matched companies) ≡ true =
        ap (λ z. is_empty (map (λ (c : Company). c.id) z))
          (select-nothing (is_external source_type external_id) companies others) in
      subst (λ z. IsIn company.id z)
        (sym (legacy_there companies (row_some (is_legacy external_id) company companies i legacy))
          ∙ sym (ids_legacy companies bare))
        (inl (sym (legacy_id company legacy)))
