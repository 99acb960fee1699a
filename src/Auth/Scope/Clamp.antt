-- ===== src/Auth/Scope/Clamp.antt =====
-- auth_scope.py: which staff rows a principal reads and writes.
use yclients_project.Prelude.{
  ℕ, Bool, true, not, ◌&&◌, ◌||◌, Option, none, some, List, [], ◌∷◌, map, if◌then◌else◌, elem,
  is_subset, is_empty, is_none, distinct,
}
use yclients_project.Prelude.Rows.{select}
use yclients_project.Prelude.Text.{codes}
use yclients_project.Auth.{Reply, ok, refuse}
use yclients_project.Auth.Scope.{
  StaffKey, AccessContext, ids_or_empty, has_staff_view, has_branch_scope,
}

-- `int | frozenset[int] | None`
pub data Selection : Type 0 where
  everyone : Selection
  person : ℕ → Selection
  people : List ℕ → Selection

abbrev pub selected_ids : Selection → List ℕ
selected_ids everyone = []
selected_ids (person staff) = staff ∷ []
selected_ids (people staff) = staff

-- `{company_id}`, or the branches of the request, or the user's own ones
abbrev pub staff_scope : AccessContext → Option ℕ → Option (List ℕ) → List ℕ
staff_scope ctx (some company) allowed = company ∷ []
staff_scope ctx none (some allowed) = allowed
staff_scope ctx none none = ids_or_empty ctx.company_ids

abbrev pub own_staff : AccessContext → List ℕ → List ℕ
own_staff ctx scope_ids = distinct [] (
    map (λ (key : StaffKey). key.staff)
      (select (λ (key : StaffKey). elem key.company scope_ids) ctx.staff_keys))

abbrev pub no_staff_row : {A : Type 0} → Reply A
no_staff_row = refuse 403 (codes "No staff row assigned")

abbrev pub clamp_to : List ℕ → Selection → Reply Selection
clamp_to [] requested = no_staff_row
clamp_to (staff ∷ []) everyone = ok (person staff)
clamp_to (staff ∷ next ∷ own) everyone = ok (people (staff ∷ next ∷ own))
clamp_to (staff ∷ own) (person s) =
    if is_subset (s ∷ []) (staff ∷ own)
    then ok (person s)
    else refuse 403 (codes "Staff member not allowed")
clamp_to (staff ∷ own) (people group) =
    if is_subset group (staff ∷ own)
    then ok (people group)
    else refuse 403 (codes "Staff member not allowed")

abbrev pub staff_id_rows : Option ℕ → List ℕ
staff_id_rows none = []
staff_id_rows (some staff) = staff ∷ []

unfoldable pub effective_staff_selection :
    AccessContext → Selection → Option ℕ → Option (List ℕ) → Reply Selection
effective_staff_selection ctx requested company_id allowed_company_ids =
    if ctx.full_access || has_staff_view ctx.role
    then ok requested
    else if is_none ctx.staff_id && is_empty ctx.staff_keys
    then no_staff_row
    else if not (is_empty ctx.staff_keys)
    then clamp_to (own_staff ctx (staff_scope ctx company_id allowed_company_ids)) requested
    else clamp_to (staff_id_rows ctx.staff_id) requested

abbrev pub in_companies : Option (List ℕ) → StaffKey → Bool
in_companies none key = true
in_companies (some ids) key = elem key.company ids

-- `none`: the whole branch scope.
unfoldable pub manual_fact_staff_keys : AccessContext → Option (List StaffKey)
manual_fact_staff_keys ctx =
    if ctx.full_access || has_branch_scope ctx.role
    then none
    else some (select (in_companies ctx.company_ids) ctx.staff_keys)
