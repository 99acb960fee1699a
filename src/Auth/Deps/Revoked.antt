-- ===== src/Auth/Deps/Revoked.antt =====
-- auth_deps.py with auth_sessions.py: access tokens after the sessions of their user are revoked,
-- and after his token version is raised.
use yclients_project.Prelude.{
  ℕ, ◌+◌, ◌≡◌, ◌≢◌, refl, sym, ap, ◌∙◌, Bool, false, not, ◌&&◌, Option, none, some, List, [], ◌∷◌,
  arith, inl, inr, ◌==◌, if◌then◌else◌, IsIn, Option-cases, Bool-cases,
}
use yclients_project.Prelude.Rows.{select, update_where, IsIn-select, IsIn-update}
use yclients_project.Prelude.Keyed.{IsKeyed}
use yclients_project.Prelude.Text.{Text}
use yclients_project.Auth.{Role, ok}
use yclients_project.Auth.Sessions.{
  RefreshToken, User, Store, revoke_user_sessions, bump_user_token_version, one_or_none,
}
use yclients_project.Auth.Tenancy.{
  load_portal_account_branch_ids, load_user_access_branch_ids, resolve_money_metrics,
  load_portal_user_staff_rows, Portal,
}
use yclients_project.Auth.Deps.{
  staff_clamp, Claims, VersionClaim, Decode, Principal, access_of, is_live_session, joined_users,
  version_of, admit_user, admit_claims, user_from_token,
}
use yclients_project.Auth.Deps.Live.{Reply-cases, user_from_token-IsAdmitted, user_from_token_eq}

-- The rows that the sessions code works on, taken back into the portal.
abbrev pub with_store : Store → Portal → Portal
with_store store db = record db { tokens = store.tokens; users = store.users }

-- The portal after `bump_user_token_version` of the user with this id.
abbrev pub bump : ℕ → Portal → Portal
bump user_id db = record db {
  users = update_where (λ (u : User). u.id == user_id) bump_user_token_version db.users;
}

revoked_token :
    (user_id : ℕ) (store : Store) (token : RefreshToken)
    → IsIn token (revoke_user_sessions user_id store).tokens
    → token.user_id ≢ user_id
unfolding revoke_user_sessions
revoked_token user_id store token i =
    let (j, h) =
      IsIn-select (λ (t : RefreshToken). not (t.user_id == user_id)) token store.tokens i in
    λ e. ground arith

module _ (decode : Decode) (header : Option ℕ) (now : ℕ) (db : Portal) (token : Text) where
  -- After the sessions of a user are revoked no token of that user is accepted, with whatever
  -- header and at whatever moment.
  pub revoke_user_sessions_ends :
      (user_id : ℕ) (store : Store) (principal : Principal)
      → user_from_token decode header now (with_store (revoke_user_sessions user_id store) db) token
        ≡ ok principal
      → principal.user.id ≢ user_id
  revoke_user_sessions_ends user_id store principal h =
      let admitted =
        user_from_token-IsAdmitted decode header now
          (with_store (revoke_user_sessions user_id store) db) token principal h in
      let live = admitted.live in
      λ e. revoked_token user_id store live.session live.stored (live.holder ∙ e)

-- A filter that drops nothing that the next one keeps.
select-select :
    {A : Type 0} (p q : A → Bool) (xs : List A)
    → ((x : A) → q x ≡ false → p x ≡ false)
    → select p (select q xs) ≡ select p xs
select-select p q [] h = refl
select-select p q (x ∷ xs) h =
    let ih = select-select p q xs h in
    elim (Bool-cases (q x)) [ inl e ↦ rw (e, ih) refl | inr e ↦ rw (e, ih, h x e) refl ]

-- The test of the join, at one user.
abbrev matches : ℕ → ℕ → ℕ → User → RefreshToken → Bool
matches user_id session_id now user t =
    (user.id == user_id) && is_live_session user.id session_id now t

other_matches :
    (revoked user_id session_id now : ℕ) (user : User) (t : RefreshToken)
    → user_id ≢ revoked
    → not (t.user_id == revoked) ≡ false
    → matches user_id session_id now user t ≡ false
other_matches revoked user_id session_id now user t other h = ground arith

joined_of_other :
    (revoked user_id session_id now : ℕ) (users : List User) (tokens : List RefreshToken)
    → user_id ≢ revoked
    → joined_users user_id session_id now users
        (select (λ (t : RefreshToken). not (t.user_id == revoked)) tokens)
      ≡ joined_users user_id session_id now users tokens
joined_of_other revoked user_id session_id now [] tokens other = refl
joined_of_other revoked user_id session_id now (user ∷ users) tokens other =
    let here =
      select-select (matches user_id session_id now user)
        (λ (t : RefreshToken). not (t.user_id == revoked)) tokens
        (λ t h. other_matches revoked user_id session_id now user t other h) in
    rw (here, joined_of_other revoked user_id session_id now users tokens other) refl

module _ (tokens : List RefreshToken) (db : Portal) where
  abbrev other_tokens : Portal
  other_tokens = record db { tokens = tokens }

  same_branches :
      (account : Option ℕ)
      → load_portal_account_branch_ids account other_tokens
        ≡ load_portal_account_branch_ids account db
  same_branches none = refl
  same_branches (some account) = refl

  same_access_ids :
      (user : User)
      → load_user_access_branch_ids user other_tokens ≡ load_user_access_branch_ids user db
  unfolding load_user_access_branch_ids
  same_access_ids user = rw (same_branches user.portal_account_id) refl

  same_metrics :
      (account : Option ℕ) (role : Role)
      → resolve_money_metrics account role other_tokens ≡ resolve_money_metrics account role db
  unfolding resolve_money_metrics
  same_metrics none role = refl
  same_metrics (some account) role = refl

  same_clamp :
      (user : User) (ids : List ℕ) → staff_clamp user ids other_tokens ≡ staff_clamp user ids db
  unfolding staff_clamp load_portal_user_staff_rows
  same_clamp user ids = refl

  -- The scope of a user does not read the sessions.
  same_access :
      (header : Option ℕ) (user : User)
      → access_of header user other_tokens ≡ access_of header user db
  unfolding access_of
  same_access header user =
      rw
        (
          same_access_ids user,
          same_metrics user.portal_account_id user.role,
          same_clamp user (load_user_access_branch_ids user db),
        )
        refl

  same_admit :
      (header : Option ℕ) (tv : VersionClaim) (found : Option User)
      → admit_user header tv other_tokens found ≡ admit_user header tv db found
  unfolding admit_user
  same_admit header tv none = refl
  same_admit header tv (some user) = elim (Option-cases (version_of tv)) [
    | inl e ↦ rw e refl
    | inr (n, e) ↦ rw (e, same_access header user) refl
  ]

module _ (decode : Decode) (header : Option ℕ) (now : ℕ) (token : Text) (user_id : ℕ)
    (store : Store) (db : Portal) where
  after : Portal
  after = with_store (revoke_user_sessions user_id store) db

  same_claims :
      (claims : Claims)
      → claims.sub ≢ some user_id
      → admit_claims header now after claims ≡ admit_claims header now (with_store store db) claims
  unfolding admit_claims after revoke_user_sessions
  same_claims claims other = elim (Option-cases claims.sub) [
    | inl e ↦ rw e refl
    | inr (sub, e) ↦ elim (Option-cases claims.sid) [
      | inl f ↦ rw (e, f) refl
      | inr (session_id, f) ↦
          (rw
            (
              e,
              f,
              joined_of_other user_id sub session_id now store.users store.tokens
                  (λ q. other (e ∙ ap some q)),
            )
            (elim (Reply-cases
              (one_or_none (joined_users sub session_id now store.users store.tokens))) [
                | inl (found, g) ↦ rw g (
                    same_admit (revoke_user_sessions user_id store).tokens (with_store store db)
                      header claims.tv found)
                | inr (status, detail, ids, g) ↦ rw g refl
              ]))
    ]
  ]

  -- Revoking the sessions of one user changes nothing for a token that names another.
  pub revoke_keeps_others :
      (claims : Claims)
      → decode token ≡ some claims
      → claims.sub ≢ some user_id
      → user_from_token decode header now (with_store (revoke_user_sessions user_id store) db) token
        ≡ user_from_token decode header now (with_store store db) token
  unfolding after
  revoke_keeps_others claims e other =
      user_from_token_eq decode header now (with_store (revoke_user_sessions user_id store) db)
        token claims e
      ∙ same_claims claims other
      ∙ sym (user_from_token_eq decode header now (with_store store db) token claims e)

bumped_from :
    (user_id : ℕ) (before user : User)
    → (if before.id == user_id then bump_user_token_version before else before) ≡ user
    → user.id ≡ user_id
    → (before.id ≡ user_id) × (user.token_version ≡ before.token_version + 1)
unfolding bump_user_token_version
bumped_from user_id before user f e = elim (Bool-cases (before.id == user_id)) [
  | inl g ↦ (ground arith, ap (λ (u : User). u.token_version) (sym (rw g at f)))
  | inr g ↦
      (let same : before.id ≡ user_id = ap (λ (u : User). u.id) (rw g at f) ∙ e in
        absurd (ground arith))
]

bumped_row :
    (user_id : ℕ) (user : User) (db : Portal)
    → IsIn user (bump user_id db).users
    → user.id ≡ user_id
    → (before : User) × IsIn before db.users
      × (before.id ≡ user_id)
      × (user.token_version ≡ before.token_version + 1)
bumped_row user_id user db i e =
    let (before, j, f) =
      IsIn-update (λ (u : User). u.id == user_id) bump_user_token_version user db.users i in
    let (same, version) = bumped_from user_id before user f e in (before, j, same, version)

module _ (decode : Decode) (header later_header : Option ℕ) (now later : ℕ) (db : Portal)
    (token : Text) where
  -- A token that was accepted is accepted no more once the token version of its user was raised.
  pub bump_user_token_version_ends :
      (principal : Principal)
      → IsKeyed (λ (u : User). u.id) db.users
      → user_from_token decode header now db token ≡ ok principal
      → (other : Principal)
      → user_from_token decode later_header later (bump principal.user.id db) token ≢ ok other
  bump_user_token_version_ends principal keyed h other k =
      let a = user_from_token-IsAdmitted decode header now db token principal h in
      let b =
        user_from_token-IsAdmitted decode later_header later (bump principal.user.id db) token other
          k in
      let same : a.claims ≡ b.claims = cc (a.decoded, b.decoded) in
      let id_kept : other.user.id ≡ principal.user.id = cc (a.sub, b.sub, same) in
      let (before, j, id_before, raised) =
        bumped_row principal.user.id other.user db b.known id_kept in
      let was : before ≡ principal.user = keyed before principal.user j a.known id_before in
      let version : other.user.token_version ≡ principal.user.token_version =
        cc (a.same_version, b.same_version, same) in
      omega (arith, raised, version, ap (λ (u : User). u.token_version) was)
