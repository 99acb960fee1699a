-- ===== src/Auth/Deps/Context.antt =====
-- auth_deps.py: on what grounds `require_auth` lets a request through, and the staff row that the
-- scope of an employee is clamped to.
use yclients_project.Prelude.{
  ℕ, ◌≡◌, ◌≢◌, ◌⊎◌, refl, sym, ap, subst, ◌∙◌, Bool, true, false, Option, none, some, List, [], ◌∷◌,
  arith, inl, inr, IsIn, Option-cases, Bool-cases, is_empty, elem, leb,
}
use yclients_project.Prelude.Rows.{
  select, first, IsIn-select, select-IsIn, order_by-IsIn, IsIn-order_by, first-IsIn, first-none_lem,
  order_by,
}
use yclients_project.Prelude.Text.{Text, text_eq→≡}
use yclients_project.Auth.{Reply, ok, refused}
use yclients_project.Auth.Metrics.{has_text}
use yclients_project.Auth.Scope.{StaffKey, is_branch_scope_role}
use yclients_project.Auth.Sessions.{User}
use yclients_project.Auth.Sessions.Csrf.{enforce_csrf}
use yclients_project.Auth.Sessions.Device.{secure_equals}
use yclients_project.Auth.Tenancy.{
  Portal, StaffRow, is_row_of, load_portal_user_staff_rows, load_user_access_branch_ids,
}
use yclients_project.Auth.Deps.{
  Decode, Principal, AuthRequest, AuthConfig, State, nobody, key_holder, user_state, access_of,
  staff_clamp, clamp_staff, staff_keys_of, user_from_token, extract_access_token, open_paths,
  with_token, without_token, after_csrf, require_auth,
}
use yclients_project.Auth.Deps.Live.{IsAdmitted, Reply-cases, user_from_token-IsAdmitted}

-- No token was presented: none at all, or an empty one.
abbrev pub HasNoToken : AuthRequest → Type 0
HasNoToken request =
    (extract_access_token request ≡ none) ⊎ (extract_access_token request ≡ some [])

-- On what grounds a request may pass as this state.
unfoldable pub IsGranted : Decode → AuthConfig → ℕ → Portal → AuthRequest → State → Type 0
IsGranted decode config now db request nobody =
    (has_text request.path (open_paths config.is_production) ≡ true)
    ⊎ ((config.api_key ≡ []) × (config.auth_require_login ≡ false) × HasNoToken request)
IsGranted decode config now db request key_holder =
    (config.api_key ≢ []) × (request.x_api_key ≡ some config.api_key) × HasNoToken request
IsGranted decode config now db request (user_state principal) =
    (token : Text) × (extract_access_token request ≡ some token)
    × (enforce_csrf request.csrf ≡ ok tt)
    × IsAdmitted decode request.x_portal_account_id now db token principal

empty_lem : (s : Text) → is_empty s ≡ true → s ≡ []
empty_lem [] h = refl
empty_lem (c ∷ s) h = cc

not_empty_lem : (s : Text) → is_empty s ≡ false → s ≢ []
not_empty_lem [] h e = cc h
not_empty_lem (c ∷ s) h e = cc

key_lem :
    (presented : Option Text) (key : Text)
    → key ≢ []
    → secure_equals presented key ≡ true
    → presented ≡ some key
unfolding secure_equals
key_lem none [] given h = absurd (given refl)
key_lem none (c ∷ key) given h = cc
key_lem (some s) key given h = ap some (text_eq→≡ s key h)

ok_inj : {A : Type 0} {a b : A} → ok a ≡ ok b → a ≡ b
ok_inj h = cc h

module _ (decode : Decode) (config : AuthConfig) (now : ℕ) (db : Portal)
    (request : AuthRequest) where
  without_token-IsGranted :
      (state : State)
      → HasNoToken request
      → without_token decode config request ≡ ok state
      → IsGranted decode config now db request state
  unfolding IsGranted
  without_token-IsGranted nobody bare h =
      inr (empty_lem config.api_key (ground arith), ground arith, bare)
  without_token-IsGranted key_holder bare h =
      let given = not_empty_lem config.api_key (ground arith) in
      (given, key_lem request.x_api_key config.api_key given (ground arith), bare)
  without_token-IsGranted (user_state principal) bare h = ground arith

  after_csrf_ok :
      (r : Reply Principal) (state : State)
      → after_csrf decode request.csrf r ≡ ok state
      → (principal : Principal) × (r ≡ ok principal)
        × (enforce_csrf request.csrf ≡ ok tt)
        × (state ≡ user_state principal)
  after_csrf_ok (refused status detail ids) state h = cc
  after_csrf_ok (ok principal) state h = elim (Reply-cases (enforce_csrf request.csrf)) [
    | inl (done, f) ↦ (principal, refl, f, ground arith)
    | inr (status, detail, ids, f) ↦ ground arith
  ]

  with_token-IsGranted :
      (token : Option Text) (state : State)
      → extract_access_token request ≡ token
      → with_token decode config now db request token ≡ ok state
      → IsGranted decode config now db request state
  unfolding IsGranted
  with_token-IsGranted none state presented h = without_token-IsGranted state (inl presented) h
  with_token-IsGranted (some []) state presented h = without_token-IsGranted state (inr presented) h
  with_token-IsGranted (some (c ∷ s)) state presented h =
      let (principal, e, f, g) =
        after_csrf_ok (user_from_token decode request.x_portal_account_id now db (c ∷ s)) state h in
      subst (λ z. IsGranted decode config now db request z) (sym g)
        (
          c ∷ s,
          presented,
          f,
          user_from_token-IsAdmitted decode request.x_portal_account_id now db (c ∷ s) principal e,
        )

  open_path :
      has_text request.path (open_paths config.is_production) ≡ true
      → IsGranted decode config now db request nobody
  unfolding IsGranted
  open_path e = inl e

  -- A request passes only on an open path, as a user whose token was accepted and who passed the
  -- CSRF check, with the configured API key, or, where neither a key is configured nor a login is
  -- required, without a token.
  pub require_auth-IsGranted :
      (state : State)
      → require_auth decode config now db request ≡ ok state
      → IsGranted decode config now db request state
  unfolding require_auth
  require_auth-IsGranted state h =
      elim (Bool-cases (has_text request.path (open_paths config.is_production))) [
        | inl e ↦
            (let passed : nobody ≡ state = ok_inj (sym (rw e refl) ∙ h) in
              subst (λ z. IsGranted decode config now db request z) passed (open_path e))
        | inr e ↦ with_token-IsGranted (extract_access_token request) state refl (rw e at h)
      ]

-- The row that the clamp takes, and the reason.
pub record IsClamp (branch_ids : List ℕ) (rows : List StaffRow) (id : ℕ) : Type 0 where
  pub row : StaffRow
  pub own : IsIn row rows
  pub named : row.id ≡ id
  pub in_scope :
      (other : StaffRow) (company : ℕ)
      → IsIn other rows
      → other.company_id ≡ some company
      → elem company branch_ids ≡ true
      → (here : ℕ) × (row.company_id ≡ some here) × (elem here branch_ids ≡ true)

split_head : {A B : Type 0} → A ⊎ B → A ⊎ B
split_head i = i

key_row :
    (key : StaffKey) (rows : List StaffRow)
    → IsIn key (staff_keys_of rows)
    → (row : StaffRow) × IsIn row rows × (row.company_id ≡ some key.company) × (row.id ≡ key.staff)
key_row key [] i = absurd i
key_row key (row ∷ rows) i = elim (Option-cases row.company_id) [
  | inl e ↦ let (r, j, f, g) = key_row key rows (rw e at i) in (r, inr j, f, g)
  | inr (company, e) ↦ elim (split_head (rw e at i)) [
    | inl q ↦ (
      row,
      inl refl,
      e ∙ ap (λ (k : StaffKey). some k.company) q,
      ap (λ (k : StaffKey). k.staff) q,
    )
    | inr j ↦ let (r, k, f, g) = key_row key rows j in (r, inr k, f, g)
  ]
]

row_key :
    (row : StaffRow) (company : ℕ) (rows : List StaffRow)
    → IsIn row rows
    → row.company_id ≡ some company
    → IsIn (record { company = company; staff = row.id }) (staff_keys_of rows)
row_key row company [] i e = absurd i
row_key row company (r ∷ rows) (inl q) e =
    rw (ap (λ (z : StaffRow). z.company_id) q ∙ e)
      (inl (ap (λ (z : StaffRow). record { company = company; staff = z.id }) q))
row_key row company (r ∷ rows) (inr i) e = elim (Option-cases r.company_id) [
  | inl f ↦ rw f (row_key row company rows i e)
  | inr (here, f) ↦ rw f (inr (row_key row company rows i e))
]

clamp_hit :
    (branch_ids : List ℕ) (key : StaffKey) (rows : List StaffRow)
    → first (select (λ (k : StaffKey). elem k.company branch_ids) (staff_keys_of rows)) ≡ some key
    → clamp_staff branch_ids rows ≡ some key.staff
unfolding clamp_staff
clamp_hit branch_ids key rows e = ground arith

clamp_miss :
    (branch_ids : List ℕ) (row : StaffRow) (rows : List StaffRow)
    → first (select (λ (k : StaffKey). elem k.company branch_ids) (staff_keys_of rows)) ≡ none
    → first rows ≡ some row
    → clamp_staff branch_ids rows ≡ some row.id
unfolding clamp_staff
clamp_miss branch_ids row rows e top = ground arith

-- The clamp of a list of rows with `row` at its head.
clamp_staff-IsClamp :
    (branch_ids : List ℕ) (row : StaffRow) (rows : List StaffRow)
    → first rows ≡ some row
    → (id : ℕ) × (clamp_staff branch_ids rows ≡ some id) × IsClamp branch_ids rows id
unfolding clamp_staff
clamp_staff-IsClamp branch_ids row rows top =
    let in_branches : StaffKey → Bool = λ k. elem k.company branch_ids in
    let keys = staff_keys_of rows in
    elim (Option-cases (first (select in_branches keys))) [
      | inr (key, e) ↦
          (let (i, h) =
              IsIn-select in_branches key keys (first-IsIn key (select in_branches keys) e) in
            let (r, own, company, named) = key_row key rows i in
            (
              key.staff,
              clamp_hit branch_ids key rows e,
              record {
                row = r;
                own = own;
                named = named;
                in_scope = λ other there j f g. (key.company, company, h);
              },
            ))
      | inl e ↦ (
        row.id,
        clamp_miss branch_ids row rows e top,
        record {
          row = row;
          own = first-IsIn row rows top;
          named = refl;
          in_scope = λ other there j f g. absurd (
              first-none_lem (record { company = there; staff = other.id })
                (select in_branches keys) e
                (select-IsIn in_branches (record { company = there; staff = other.id }) keys
                  (row_key other there rows j f) g));
        },
      )
    ]

access_of_staff :
    (header : Option ℕ) (user : User) (db : Portal)
    → is_branch_scope_role user.role ≡ false
    → (access_of header user db).staff_id
      ≡ clamp_staff (load_user_access_branch_ids user db) (load_portal_user_staff_rows user.id db)
unfolding access_of staff_clamp
access_of_staff header user db h = ground arith

-- The scope of an employee who has a row is clamped to a row of his, and to one in an assigned
-- branch if he has any there.
pub access_of-IsClamp :
    (header : Option ℕ) (user : User) (db : Portal) (row : StaffRow)
    → is_branch_scope_role user.role ≡ false
    → IsIn row db.staff
    → is_row_of user.id row ≡ true
    → (id : ℕ) × ((access_of header user db).staff_id ≡ some id)
      × IsClamp (load_user_access_branch_ids user db) (select (is_row_of user.id) db.staff) id
unfolding load_portal_user_staff_rows
access_of-IsClamp header user db row h i own =
    let mine = select (is_row_of user.id) db.staff in
    let by_id : StaffRow → StaffRow → Bool = λ a b. leb a.id b.id in
    let rows = order_by by_id mine in
    let there = order_by-IsIn by_id row mine (select-IsIn (is_row_of user.id) row db.staff i own) in
    elim (Option-cases (first rows)) [
      | inl e ↦ absurd (first-none_lem row rows e there)
      | inr (top, e) ↦
          (let (id, f, clamp) =
              clamp_staff-IsClamp (load_user_access_branch_ids user db) top rows e in
            (
              id,
              access_of_staff header user db h ∙ f,
              record {
                row = clamp.row;
                own = IsIn-order_by by_id clamp.row mine clamp.own;
                named = clamp.named;
                in_scope = λ other company j.
                    clamp.in_scope other company (order_by-IsIn by_id other mine j);
              },
            ))
    ]
