-- ===== src/Auth/Deps/Live.antt =====
-- auth_deps.py `_user_from_token`: what an accepted token rests on.
use yclients_project.Prelude.{
  ℕ, ◌<◌, ◌≡◌, ◌⊎◌, refl, sym, ap, subst, ◌∙◌, true, ◌&&◌, Option, none, some, List, [], ◌∷◌, map,
  arith, inl, inr, ◌==◌, IsIn, IsIn-append, IsIn-map, Option-cases,
}
use yclients_project.Prelude.Rows.{select, IsIn-select}
use yclients_project.Prelude.Text.{Text}
use yclients_project.Auth.{Reply, ok, refused}
use yclients_project.Auth.Sessions.{RefreshToken, User, one_or_none}
use yclients_project.Auth.Tenancy.{Portal}
use yclients_project.Auth.Deps.{
  Claims, VersionClaim, Decode, Principal, access_of, is_live_session, joined_users, version_of,
  admit_user, admit_claims, user_from_token,
}

-- A stored session of the user that has not expired.
pub record LiveSession (user_id session_id now : ℕ) (tokens : List RefreshToken) : Type 0 where
  pub session : RefreshToken
  pub stored : IsIn session tokens
  pub holder : session.user_id ≡ user_id
  pub named : session.id ≡ session_id
  pub unexpired : now < session.expires_at

select_live :
    (user_id session_id now : ℕ) (user : User) (session : RefreshToken) (tokens : List RefreshToken)
    → IsIn session (
        select
          (λ (t : RefreshToken). (user.id == user_id) && is_live_session user.id session_id now t)
          tokens)
    → (user.id ≡ user_id) × LiveSession user_id session_id now tokens
select_live user_id session_id now user session tokens i =
    let (j, h) =
      IsIn-select
        (λ (t : RefreshToken). (user.id == user_id) && is_live_session user.id session_id now t)
        session tokens i in
    (
      ground arith,
      record {
        session = session;
        stored = j;
        holder = ground arith;
        named = ground arith;
        unexpired = ground arith;
      },
    )

pub joined-IsIn :
    (user_id session_id now : ℕ) (user : User) (users : List User) (tokens : List RefreshToken)
    → IsIn user (joined_users user_id session_id now users tokens)
    → IsIn user users × ((user.id ≡ user_id) × LiveSession user_id session_id now tokens)
joined-IsIn user_id session_id now user [] tokens i = absurd i
joined-IsIn user_id session_id now user (u ∷ users) tokens i =
    let matches =
      select (λ (t : RefreshToken). (u.id == user_id) && is_live_session u.id session_id now t)
        tokens in
    elim (IsIn-append user (map (λ t. u) matches) (joined_users user_id session_id now users tokens)
      i) [
        | inl j ↦
            (let (session, k, e) = IsIn-map (λ t. u) user matches j in
              let (same, live) = select_live user_id session_id now u session tokens k in
              (inl e, (ap (λ (z : User). z.id) (sym e) ∙ same, live)))
        | inr j ↦
            (let (k, rest) = joined-IsIn user_id session_id now user users tokens j in
              (inr k, rest))
      ]

one_or_none-IsIn : {A : Type 0} (x : A) (xs : List A) → one_or_none xs ≡ ok (some x) → IsIn x xs
unfolding one_or_none
one_or_none-IsIn x [] h = cc
one_or_none-IsIn x (y ∷ []) h = inl (cc h)
one_or_none-IsIn x (y ∷ z ∷ xs) h = cc

-- What stands behind a principal: an active user with the version of the token, and a live
-- session.
pub record IsAdmitted (decode : Decode) (header : Option ℕ) (now : ℕ) (db : Portal) (token : Text)
    (principal : Principal) : Type 0 where
  pub claims : Claims
  pub session_id : ℕ
  pub decoded : decode token ≡ some claims
  pub sub : claims.sub ≡ some principal.user.id
  pub sid : claims.sid ≡ some session_id
  pub known : IsIn principal.user db.users
  pub active : principal.user.is_active ≡ true
  pub same_version : version_of claims.tv ≡ some principal.user.token_version
  pub live : LiveSession principal.user.id session_id now db.tokens
  pub scope : principal.access ≡ access_of header principal.user db

pub Reply-cases :
    {A : Type 0} (r : Reply A)
    → ((a : A) × (r ≡ ok a))
      ⊎ ((status : ℕ) × (detail : Text) × (ids : List ℕ) × (r ≡ refused status detail ids))
Reply-cases (ok a) = inl (a, refl)
Reply-cases (refused status detail ids) = inr (status, detail, ids, refl)

admit_user_ok :
    (header : Option ℕ) (tv : VersionClaim) (db : Portal) (found : Option User)
    (principal : Principal)
    → admit_user header tv db found ≡ ok principal
    → (found ≡ some principal.user)
      × (principal.user.is_active ≡ true)
      × (version_of tv ≡ some principal.user.token_version)
      × (principal.access ≡ access_of header principal.user db)
unfolding admit_user
admit_user_ok header tv db none principal h = cc
admit_user_ok header tv db (some user) principal h = elim (Option-cases (version_of tv)) [
  | inl e ↦ ground arith
  | inr (n, e) ↦ (ground arith, ground arith, ground arith, ground arith)
]

module _ (header : Option ℕ) (now : ℕ) (db : Portal) (claims : Claims) where
  admit_claims_eq :
      (user_id session_id : ℕ) (found : Option User)
      → claims.sub ≡ some user_id
      → claims.sid ≡ some session_id
      → one_or_none (joined_users user_id session_id now db.users db.tokens) ≡ ok found
      → admit_claims header now db claims ≡ admit_user header claims.tv db found
  unfolding admit_claims
  admit_claims_eq user_id session_id found e f g = ground arith

  -- An accepted token has both ids, and the lookup gave at most one row.
  found_row :
      (principal : Principal)
      → admit_claims header now db claims ≡ ok principal
      → (user_id : ℕ) × (session_id : ℕ) × (found : Option User) × (claims.sub ≡ some user_id)
        × (claims.sid ≡ some session_id)
        × (one_or_none (joined_users user_id session_id now db.users db.tokens) ≡ ok found)
  unfolding admit_claims
  found_row principal h = elim (Option-cases claims.sub) [
    | inl e ↦ ground arith
    | inr (user_id, e) ↦ elim (Option-cases claims.sid) [
      | inl f ↦ ground arith
      | inr (session_id, f) ↦
          elim (Reply-cases
            (one_or_none (joined_users user_id session_id now db.users db.tokens))) [
              | inl (found, g) ↦ (user_id, session_id, found, e, f, g)
              | inr (status, detail, ids, g) ↦ ground arith
            ]
    ]
  ]

module _ (decode : Decode) (header : Option ℕ) (now : ℕ) (db : Portal) (token : Text) where
  pub user_from_token_eq :
      (claims : Claims)
      → decode token ≡ some claims
      → user_from_token decode header now db token ≡ admit_claims header now db claims
  unfolding user_from_token
  user_from_token_eq claims e = ground arith

  pub decoded :
      (principal : Principal)
      → user_from_token decode header now db token ≡ ok principal
      → (claims : Claims) × (decode token ≡ some claims)
  unfolding user_from_token
  decoded principal h = elim (Option-cases (decode token)) [
    | inl e ↦ ground arith
    | inr found ↦ found
  ]

  -- An accepted token names a stored session of its user that has not expired, and its user is
  -- active and has the version of the token.
  pub user_from_token-IsAdmitted :
      (principal : Principal)
      → user_from_token decode header now db token ≡ ok principal
      → IsAdmitted decode header now db token principal
  user_from_token-IsAdmitted principal h =
      let (claims, d) = decoded principal h in
      let h2 = sym (user_from_token_eq claims d) ∙ h in
      let (user_id, session_id, found, e, f, g) = found_row header now db claims principal h2 in
      let h3 = sym (admit_claims_eq header now db claims user_id session_id found e f g) ∙ h2 in
      let (p, active, version, scope) = admit_user_ok header claims.tv db found principal h3 in
      let rows = joined_users user_id session_id now db.users db.tokens in
      let (known, (same, live)) =
        joined-IsIn user_id session_id now principal.user db.users db.tokens
          (one_or_none-IsIn principal.user rows (g ∙ ap ok p)) in
      record {
        claims = claims;
        session_id = session_id;
        decoded = d;
        sub = e ∙ ap some (sym same);
        sid = f;
        known = known;
        active = active;
        same_version = version;
        live = subst (λ z. LiveSession z session_id now db.tokens) (sym same) live;
        scope = scope;
      }
