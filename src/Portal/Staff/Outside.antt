-- ===== src/Portal/Staff/Outside.antt =====
-- portal_staff_sync.py: which mirrors of a user are not fired after a synchronization.
use yclients_project.Prelude.{
  ℕ, ◌≡◌, ◌⊎◌, refl, sym, ap, subst, ◌∙◌, Bool, true, false, not, ◌&&◌, ◌||◌, some, List, [], ◌∷◌,
  arith, inl, inr, ◌==◌, IsIn, IsIn-append, Bool-cases, Option-cases, any, is_empty, elem→IsIn,
  distinct, IsIn-distinct, leb, if◌then◌else◌,
}
use yclients_project.Prelude.Rows.{select-IsIn, IsIn-order_by, IsIn-update}
use yclients_project.Auth.Sessions.{User}
use yclients_project.Auth.Tenancy.{role_text}
use yclients_project.Portal.Ownership.{holds}
use yclients_project.Portal.Staff.{
  Staff, is_crm_row, is_own_mirror, add_portal_staff, linked_to, as_bookable, as_mirror, as_fired,
  serve_company, serve_companies, stands_for, is_retired, retire_rows, fire_mirrors,
  target_companies, portal_user_syncs_to_staff, staff_display_name, sync_linked,
  sync_portal_user_staff,
}
use yclients_project.Portal.Staff.Serving.{Served, added, of_crm, of_mirror, served}

some_any :
    (p : Staff → Bool) (row : Staff) (rows : List Staff)
    → IsIn row rows
    → p row ≡ true
    → any p rows ≡ true
some_any p row [] i e = absurd i
some_any p row (r ∷ rows) (inl q) e = rw (ap p q ∙ e) refl
some_any p row (r ∷ rows) (inr i) e = elim (Bool-cases (p r)) [
  | inl f ↦ rw f refl
  | inr f ↦ rw f (some_any p row rows i e)
]

-- Whose and where a row is did not change.
record SamePlace (a b : Staff) : Type 0 where
  id : a.id ≡ b.id
  company_id : a.company_id ≡ b.company_id
  portal_user_id : a.portal_user_id ≡ b.portal_user_id

written-SamePlace :
    (p : Bool) (f : Staff → Staff) (row result : Staff)
    → SamePlace (f row) row
    → (if p then f row else row) ≡ result
    → SamePlace result row
written-SamePlace true f row result s e = subst (λ z. SamePlace z row) e s
written-SamePlace false f row result s e =
    subst (λ z. SamePlace z row) e (record { id = refl; company_id = refl; portal_user_id = refl })

syncs_lem : (syncs bare : Bool) → (not syncs || bare) ≡ false → syncs ≡ true
syncs_lem syncs bare h = ground arith

same_ids : (l r : Staff) → l.id ≡ r.id → (l.id == r.id) ≡ true
same_ids l r e = ground arith

own_link :
    (user_id : ℕ) (r : Staff)
    → is_own_mirror user_id r ≡ true
    → holds r.portal_user_id user_id ≡ true
own_link user_id r h = ground arith

own-crm : (user_id : ℕ) (r : Staff) → is_own_mirror user_id r ≡ true → is_crm_row user_id r ≡ false
own-crm user_id r h = ground arith

-- A mirror that is known and is not retired stands for a target branch.
stays_lem :
    (known crm stands : Bool)
    → known ≡ true
    → crm ≡ false
    → (known && not crm && not stands) ≡ false
    → stands ≡ true
stays_lem known crm stands h k e = ground arith

module _ (user : User) (all : List Staff) where
  abbrev linked : List Staff
  linked = linked_to user.id all

  served_back :
      (company : ℕ) (rows result : List Staff) (r : Staff)
      → Served user linked company rows result
      → IsIn r result
      → ((b : Staff) × IsIn b rows × SamePlace r b) ⊎ (r.company_id ≡ some company)
  unfolding add_portal_staff
  served_back company rows _ r (added e) i = elim (IsIn-append r rows _ i) [
    | inl j ↦ inl (r, j, record { id = refl; company_id = refl; portal_user_id = refl })
    | inr j ↦ elim j [ inl q ↦ inr (ap (λ (x : Staff). x.company_id) (sym q)) | inr k ↦ absurd k ]
  ]
  served_back company rows _ r (of_crm chosen e h) i =
      let (b, j, q) = IsIn-update (λ (x : Staff). x.id == chosen.id) as_bookable r rows i in
      inl (
        b,
        j,
        written-SamePlace (b.id == chosen.id) as_bookable b r
            (record { id = refl; company_id = refl; portal_user_id = refl }) q,
      )
  served_back company rows _ r (of_mirror chosen e h) i =
      let f = as_mirror (staff_display_name user) (role_text user.role) in
      let (b, j, q) = IsIn-update (λ (x : Staff). x.id == chosen.id) f r rows i in
      inl (
        b,
        j,
        written-SamePlace (b.id == chosen.id) f b r
            (record { id = refl; company_id = refl; portal_user_id = refl }) q,
      )

  -- A row from before, or one that was added in a target branch.
  abbrev Origin : List ℕ → Staff → Type 0
  Origin targets r =
      ((l : Staff) × IsIn l all × (l.id ≡ r.id) × (l.portal_user_id ≡ r.portal_user_id))
      ⊎ ((company : ℕ) × (r.company_id ≡ some company) × IsIn company targets)

  back-Origin :
      (targets : List ℕ) (a b : Staff) → SamePlace a b → Origin targets b → Origin targets a
  back-Origin targets a b s (inl (l, i, e, f)) = inl (l, i, e ∙ sym s.id, f ∙ sym s.portal_user_id)
  back-Origin targets a b s (inr (company, e, i)) = inr (company, s.company_id ∙ e, i)

  companies_back :
      (targets companies : List ℕ) (rows : List Staff)
      → ((c : ℕ) → IsIn c companies → IsIn c targets)
      → ((r : Staff) → IsIn r rows → Origin targets r)
      → (r : Staff) → IsIn r (serve_companies user linked companies rows)
      → Origin targets r
  unfolding serve_companies
  companies_back targets [] rows sub origin r i = origin r i
  companies_back targets (c ∷ companies) rows sub origin r i =
      companies_back targets companies (serve_company user linked c rows) (λ d j. sub d (inr j))
        (λ x j.
          elim (served_back c rows (serve_company user linked c rows) x (served user linked c rows)
            j) [
              | inl (b, k, s) ↦ back-Origin targets x b s (origin b k)
              | inr e ↦ inr (c, e, sub c (inl refl))
            ])
        r i

  stands_lem :
      (targets : List ℕ) (r : Staff)
      → stands_for user.id linked targets r ≡ true
      → (company : ℕ) × (r.company_id ≡ some company) × IsIn company targets
  stands_lem targets r h = elim (Option-cases r.company_id) [
    | inl e ↦ cc (rw e at h)
    | inr (company, e) ↦ (company, e, elem→IsIn company targets (ground arith))
  ]

  retired_back :
      (targets : List ℕ) (r : Staff)
      → Origin targets r
      → is_own_mirror user.id r ≡ true
      → is_retired user.id linked targets r ≡ false
      → (company : ℕ) × (r.company_id ≡ some company) × IsIn company targets
  retired_back targets r (inr there) own stays = there
  retired_back targets r (inl (l, i, e, f)) own stays =
      let mine : holds l.portal_user_id user.id ≡ true =
        ap (λ z. holds z user.id) f ∙ own_link user.id r own in
      let known : any (λ (x : Staff). x.id == r.id) linked ≡ true =
        some_any (λ (x : Staff). x.id == r.id) l linked
          (select-IsIn (λ (x : Staff). holds x.portal_user_id user.id) l all i mine)
          (same_ids l r e) in
      stands_lem targets r (
        stays_lem (any (λ (x : Staff). x.id == r.id) linked) (is_crm_row user.id r)
          (stands_for user.id linked targets r) known (own-crm user.id r own) stays)

  retire_back :
      (targets : List ℕ) (rows : List Staff) (r : Staff)
      → ((x : Staff) → IsIn x rows → Origin targets x)
      → is_own_mirror user.id r ≡ true
      → IsIn r (retire_rows user.id linked targets rows)
      → (r.fired ≡ 1) ⊎ ((company : ℕ) × (r.company_id ≡ some company) × IsIn company targets)
  unfolding retire_rows
  retire_back targets rows r origin own i =
      let (x, j, q) = IsIn-update (is_retired user.id linked targets) as_fired r rows i in
      elim (Bool-cases (is_retired user.id linked targets x)) [
        | inl e ↦ inl (ap (λ (z : Staff). z.fired) (sym (rw e at q)))
        | inr e ↦
            (let same : x ≡ r = rw e at q in
              inr (
                subst
                  (λ (z : Staff).
                    (company : ℕ) × (z.company_id ≡ some company) × IsIn company targets)
                  same
                  (retired_back targets x (origin x j) (ap (is_own_mirror user.id) same ∙ own) e)))
      ]

  fire_back :
      (r : Staff) → is_own_mirror user.id r ≡ true → IsIn r (fire_mirrors user.id all) → r.fired ≡ 1
  unfolding fire_mirrors
  fire_back r own i =
      let (x, j, q) = IsIn-update (is_own_mirror user.id) as_fired r all i in
      elim (Bool-cases (is_own_mirror user.id x)) [
        | inl e ↦ ap (λ (z : Staff). z.fired) (sym (rw e at q))
        | inr e ↦
            (let same : x ≡ r = rw e at q in absurd (cc (ap (is_own_mirror user.id) same ∙ own, e)))
      ]

  idle_back :
      (r : Staff)
      → any (λ (x : Staff). not (x.fired == 1) && not (is_crm_row user.id x)) linked ≡ false
      → is_own_mirror user.id r ≡ true
      → IsIn r all
      → r.fired ≡ 1
  idle_back r none_live own i = elim (Bool-cases (r.fired == 1)) [
    | inl e ↦ ground arith
    | inr e ↦
        (let crm = own-crm user.id r own in
          let live : (not (r.fired == 1) && not (is_crm_row user.id r)) ≡ true = rw (e, crm) refl in
          absurd (
            cc (
              some_any (λ (x : Staff). not (x.fired == 1) && not (is_crm_row user.id x)) r linked
                  (select-IsIn (λ (x : Staff). holds x.portal_user_id user.id) r all i
                    (own_link user.id r own))
                  live,
              none_live,
            )))
  ]

  -- After a synchronization a mirror of the user is fired, or the user syncs and the mirror is in one
  -- of the target branches.
  pub sync_fires_rest :
      (company_ids : List ℕ) (r : Staff)
      → IsIn r (sync_portal_user_staff user company_ids all)
      → is_own_mirror user.id r ≡ true
      → (r.fired ≡ 1)
        ⊎ ((portal_user_syncs_to_staff user ≡ true)
            × ((company : ℕ) × (r.company_id ≡ some company) × IsIn company company_ids))
  unfolding sync_portal_user_staff sync_linked
  sync_fires_rest company_ids r i own =
      let targets = target_companies company_ids in
      let back : (c : ℕ) → IsIn c targets → IsIn c company_ids =
        λ c j. IsIn-distinct c [] company_ids (IsIn-order_by leb c (distinct [] company_ids) j) in
      elim (Bool-cases (not (portal_user_syncs_to_staff user) || is_empty company_ids)) [
        | inr e ↦
            (elim (retire_back targets (serve_companies user linked targets all) r
              (companies_back targets targets all (λ c j. j) (λ x j. inl (x, j, refl, refl))) own
              (rw e at i)) [
                | inl f ↦ inl f
                | inr (company, f, j) ↦ inr (
                  syncs_lem (portal_user_syncs_to_staff user) (is_empty company_ids) e,
                  (company, f, back company j),
                )
              ])
        | inl e ↦
            inl
              (elim (Bool-cases
                (any (λ (x : Staff). not (x.fired == 1) && not (is_crm_row user.id x)) linked)) [
                  | inl f ↦ fire_back r own (rw (e, f) at i)
                  | inr f ↦ idle_back r f own (rw (e, f) at i)
                ])
      ]
