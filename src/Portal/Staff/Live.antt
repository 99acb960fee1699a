-- ===== src/Portal/Staff/Live.antt =====
-- portal_staff_sync.py: the rows that stand for a user in the target branches.
use yclients_project.Prelude.{
  ℕ, ◌+◌, ◌≡◌, ◌⊎◌, refl, sym, ap, subst, ◌∙◌, true, false, some, List, [], ◌∷◌, arith, inl, inr,
  ◌==◌, IsIn, Bool-cases, append-IsIn_left, append-IsIn_last, any, elem, IsIn→elem, distinct,
  distinct-IsIn, leb,
}
use yclients_project.Prelude.Rows.{IsIn-select, order_by-IsIn, update-IsIn_hit, update-IsIn_miss}
use yclients_project.Auth.Sessions.{User}
use yclients_project.Auth.Tenancy.{role_text}
use yclients_project.Portal.Ownership.{holds}
use yclients_project.Portal.Staff.{
  Staff, is_crm_row, add_portal_staff, portal_staff, next_staff_id, max_id, linked_to, by_company,
  as_bookable, as_mirror, as_fired, serve_company, serve_companies, stands_for, is_retired,
  retire_rows, target_companies, portal_user_syncs_to_staff, staff_display_name, sync_linked,
  sync_portal_user_staff,
}
use yclients_project.Portal.Staff.Serving.{
  by_company-IsIn, any_some, Served, added, of_crm, of_mirror, served,
}
use yclients_project.Portal.Staff.Later.{
  NextOf, self-NextOf, trans-NextOf, crm_next, same_number, holds_lem, max_id-IsIn, nonempty,
}

module _ (user : User) (all : List Staff) where
  abbrev linked : List Staff
  linked = linked_to user.id all

  served_next :
      (company : ℕ) (rows result : List Staff) (r : Staff)
      → Served user linked company rows result
      → IsIn r rows
      → (next : Staff) × IsIn next result × NextOf next r
  unfolding add_portal_staff
  served_next company rows _ r (added e) i = (r, append-IsIn_left r rows _ i, self-NextOf r)
  served_next company rows _ r (of_crm chosen e h) i = elim (Bool-cases (r.id == chosen.id)) [
    | inl f ↦ (
      as_bookable r,
      update-IsIn_hit (λ (x : Staff). x.id == chosen.id) as_bookable r rows i f,
      record {
        id = refl;
        external_id = refl;
        source_type = refl;
        company_id = refl;
        portal_user_id = refl;
        live = λ z. z;
      },
    )
    | inr f ↦ (
      r,
      update-IsIn_miss (λ (x : Staff). x.id == chosen.id) as_bookable r rows i f,
      self-NextOf r,
    )
  ]
  served_next company rows _ r (of_mirror chosen e h) i =
      let f = as_mirror (staff_display_name user) (role_text user.role) in
      elim (Bool-cases (r.id == chosen.id)) [
        | inl q ↦ (
          f r,
          update-IsIn_hit (λ (x : Staff). x.id == chosen.id) f r rows i q,
          record {
            id = refl;
            external_id = refl;
            source_type = refl;
            company_id = refl;
            portal_user_id = refl;
            live = λ z. refl;
          },
        )
        | inr q ↦
            (r, update-IsIn_miss (λ (x : Staff). x.id == chosen.id) f r rows i q, self-NextOf r)
      ]

  -- The row stands for the user in the branch, and the end of the synchronization does not fire it.
  record IsStanding (company : ℕ) (r : Staff) : Type 0 where
    link : holds r.portal_user_id user.id ≡ true
    branch : holds r.company_id company ≡ true
    live : (r.fired ≡ 0) ⊎ (is_crm_row user.id r ≡ true)
    place :
        (any (λ (l : Staff). l.id == r.id) linked ≡ false)
        ⊎ ((chosen : Staff) × (by_company user.id linked company ≡ some chosen)
            × (chosen.id ≡ r.id))

  next-IsStanding :
      (company : ℕ) (a b : Staff) → NextOf a b → IsStanding company b → IsStanding company a
  next-IsStanding company a b n s = record {
    link = ap (λ z. holds z user.id) n.portal_user_id ∙ s.link;
    branch = ap (λ z. holds z company) n.company_id ∙ s.branch;
    live = elim s.live [ inl h ↦ inl (n.live h) | inr h ↦ inr (crm_next user.id a b n ∙ h) ];
    place = elim s.place [
      | inl h ↦ inl (ap (λ z. any (λ (l : Staff). l.id == z) linked) n.id ∙ h)
      | inr (chosen, e, f) ↦ inr (chosen, e, f ∙ sym n.id)
    ];
  }

  -- Each row from before is still there, in a later state.
  abbrev Follows : List Staff → Type 0
  Follows rows = (l : Staff) → IsIn l all → (r : Staff) × IsIn r rows × NextOf r l

  served-Follows :
      (company : ℕ) (rows result : List Staff)
      → Served user linked company rows result
      → Follows rows
      → Follows result
  served-Follows company rows result s follows l i =
      let (r, j, n) = follows l i in
      let (next, k, m) = served_next company rows result r s j in
      (next, k, trans-NextOf next r l m n)

  abbrev HasStanding : ℕ → List Staff → Type 0
  HasStanding company rows = (r : Staff) × IsIn r rows × IsStanding company r

  chosen_facts :
      (company : ℕ) (chosen : Staff)
      → by_company user.id linked company ≡ some chosen
      → IsIn chosen all
        × (holds chosen.portal_user_id user.id ≡ true)
        × (holds chosen.company_id company ≡ true)
  chosen_facts company chosen e =
      let (i, f) = by_company-IsIn user.id company linked chosen e in
      let (j, h) = IsIn-select (λ (r : Staff). holds r.portal_user_id user.id) chosen all i in
      (j, h, f)

  -- The next id is no id of a linked row.
  next_is_new :
      (rows : List Staff)
      → Follows rows
      → any (λ (l : Staff). l.id == next_staff_id rows) linked ≡ false
  unfolding next_staff_id
  next_is_new rows follows =
      elim (Bool-cases (any (λ (l : Staff). l.id == next_staff_id rows) linked)) [
        | inr e ↦ e
        | inl e ↦
            (let (l, i, f) = any_some (λ (x : Staff). x.id == next_staff_id rows) linked e in
              let (j, h) = IsIn-select (λ (r : Staff). holds r.portal_user_id user.id) l all i in
              let (r, k, n) = follows l j in
              let bound = max_id-IsIn r rows k in
              let same : l.id ≡ max_id rows + 1 = ground arith in
              absurd (omega (arith, bound, same, n.id)))
      ]

  served_stands :
      (company : ℕ) (rows result : List Staff)
      → Served user linked company rows result
      → Follows rows
      → HasStanding company result
  unfolding add_portal_staff
  served_stands company rows _ (added e) follows =
      let new =
        portal_staff (next_staff_id rows) (staff_display_name user) (role_text user.role) company
          user.id in
      (
        new,
        append-IsIn_last new rows,
        record {
          link = same_number user.id;
          branch = same_number company;
          live = inl refl;
          place = inl (next_is_new rows follows);
        },
      )
  served_stands company rows _ (of_crm chosen e h) follows =
      let (j, link, branch) = chosen_facts company chosen e in
      let (r, k, n) = follows chosen j in
      let (next, m, o) = served_next company rows _ r (of_crm chosen e h) k in
      (
        next,
        m,
        next-IsStanding company next chosen (trans-NextOf next r chosen o n)
            (record { link = link; branch = branch; live = inr h; place = inr (chosen, e, refl) }),
      )
  served_stands company rows _ (of_mirror chosen e h) follows =
      let f = as_mirror (staff_display_name user) (role_text user.role) in
      let (j, link, branch) = chosen_facts company chosen e in
      let (r, k, n) = follows chosen j in
      let hit : (r.id == chosen.id) ≡ true =
        ap (λ z. z == chosen.id) n.id ∙ same_number chosen.id in
      (
        f r,
        update-IsIn_hit (λ (x : Staff). x.id == chosen.id) f r rows k hit,
        record {
          link = ap (λ z. holds z user.id) n.portal_user_id ∙ link;
          branch = ap (λ z. holds z company) n.company_id ∙ branch;
          live = inl refl;
          place = inr (chosen, e, sym n.id);
        },
      )

  carry_standing :
      (company : ℕ) (companies : List ℕ) (rows : List Staff)
      → HasStanding company rows
      → HasStanding company (serve_companies user linked companies rows)
  unfolding serve_companies
  carry_standing company [] rows s = s
  carry_standing company (c ∷ companies) rows (r, i, s) =
      let (next, j, n) =
        served_next c rows (serve_company user linked c rows) r (served user linked c rows) i in
      carry_standing company companies (serve_company user linked c rows)
        (next, j, next-IsStanding company next r n s)

  companies_stand :
      (company : ℕ) (companies : List ℕ) (rows : List Staff)
      → IsIn company companies
      → Follows rows
      → HasStanding company (serve_companies user linked companies rows)
  unfolding serve_companies
  companies_stand company [] rows i follows = absurd i
  companies_stand company (c ∷ companies) rows (inl e) follows =
      carry_standing company companies (serve_company user linked c rows) (
        subst (λ z. HasStanding z (serve_company user linked c rows)) e
          (served_stands c rows (serve_company user linked c rows) (served user linked c rows)
            follows))
  companies_stand company (c ∷ companies) rows (inr i) follows =
      companies_stand company companies (serve_company user linked c rows) i (
        served-Follows c rows (serve_company user linked c rows) (served user linked c rows)
          follows)

  standing_stays :
      (company : ℕ) (targets : List ℕ) (r : Staff)
      → elem company targets ≡ true
      → IsStanding company r
      → is_retired user.id linked targets r ≡ false
  standing_stays company targets r target s =
      let here = holds_lem r.company_id company s.branch in
      elim s.place [
        | inl new ↦ rw new refl
        | inr (chosen, e, same) ↦
            (let hit : (chosen.id == r.id) ≡ true = ap (λ z. z == r.id) same ∙ same_number r.id in
              let stays : stands_for user.id linked targets r ≡ true =
                rw (here, target, e, hit) refl in
              ground arith)
      ]

  -- After the synchronization of a user who syncs, each of the target branches has a row of that user
  -- that is a live row or a row of YClients.
  pub sync_serves :
      (company : ℕ) (company_ids : List ℕ)
      → portal_user_syncs_to_staff user ≡ true
      → IsIn company company_ids
      → (r : Staff) × IsIn r (sync_portal_user_staff user company_ids all)
        × (r.portal_user_id ≡ some user.id)
        × (r.company_id ≡ some company)
        × ((r.fired ≡ 0) ⊎ (is_crm_row user.id r ≡ true))
  unfolding sync_portal_user_staff sync_linked retire_rows
  sync_serves company company_ids syncs i =
      let targets = target_companies company_ids in
      let target =
        order_by-IsIn leb company (distinct [] company_ids)
          (distinct-IsIn company [] company_ids i refl) in
      let start : Follows all = λ l j. (l, j, self-NextOf l) in
      let (r, j, s) = companies_stand company targets all target start in
      let stays = standing_stays company targets r (IsIn→elem company targets target) s in
      rw (syncs, nonempty company company_ids i)
        (
          r,
          update-IsIn_miss (is_retired user.id linked targets) as_fired r
              (serve_companies user linked targets all) j stays,
          holds_lem r.portal_user_id user.id s.link,
          holds_lem r.company_id company s.branch,
          s.live,
        )
