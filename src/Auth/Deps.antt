-- ===== src/Auth/Deps.antt =====
-- auth_deps.py and open_paths.py: the user and the scope that a request acts with.
--
-- `decode` is the decoding of an access token by PyJWT. The rows that the code reads are lists.
pub mod Live
pub mod Revoked
pub mod Context
use yclients_project.Prelude.{
  ℕ, Bool, true, false, not, ◌&&◌, ◌||◌, Option, none, some, List, [], ◌∷◌, ◌++◌, map,
  if◌then◌else◌, ◌==◌, ltb, leb, elem, is_empty, is_some,
}
use yclients_project.Prelude.Rows.{select, order_by, first}
use yclients_project.Prelude.Text.{Text, codes, text_eq, lower, strip}
use yclients_project.Auth.{
  Role, platform_admin, owner, branch_admin, manager, admin, barber, unknown, Reply, ok, refused,
  refuse, is_platform_admin_role, is_owner_role,
}
use yclients_project.Auth.Metrics.{all_money_codes, default_codes, has_text}
use yclients_project.Auth.Scope.{StaffKey, AccessContext, api_key, from_user, is_branch_scope_role}
use yclients_project.Auth.Sessions.{RefreshToken, User, one_or_none}
use yclients_project.Auth.Sessions.Csrf.{CsrfRequest, enforce_csrf}
use yclients_project.Auth.Sessions.Device.{secure_equals, starts_with, is_blank}
use yclients_project.Auth.Tenancy.{
  Branch, UserBranch, StaffRow, MetricVisibility, Portal, role_text, is_configurable_money_role,
  account_branch_ids, load_portal_account_branch_ids, load_user_branch_ids,
  load_user_access_branch_ids, is_row_of, load_portal_user_staff_rows, is_setting_of, stored_codes,
  resolve_money_metrics,
}

-- The `tv` claim; `unreadable` is a value that `int` refuses.
pub data VersionClaim : Type 0 where
  absent unreadable : VersionClaim
  version : ℕ → VersionClaim

-- The claims of a token: `none` where a claim is missing or `int` refuses it.
pub record Claims : Type 0 where
  pub sub : Option ℕ
  pub sid : Option ℕ
  pub tv : VersionClaim

-- `none` is a `PyJWTError`.
abbrev pub Decode : Type 0
Decode = Text → Option Claims

abbrev pub staff_keys_of : List StaffRow → List StaffKey
staff_keys_of [] = []
staff_keys_of (row ∷ rows) =
    let rest = staff_keys_of rows in
    elim row.company_id [
      | none ↦ rest
      | some company ↦ record { company = company; staff = row.id } ∷ rest
    ]

-- The staff row that a request is clamped to: the first one in an assigned branch, or else the
-- first one.
unfoldable pub clamp_staff : List ℕ → List StaffRow → Option ℕ
clamp_staff branch_ids rows =
    elim (first (select (λ (k : StaffKey). elem k.company branch_ids) (staff_keys_of rows))) [
      | some key ↦ some key.staff
      | none ↦ elim (first rows) [ none ↦ none | some row ↦ some row.id ]
    ]

unfoldable pub staff_clamp : User → List ℕ → Portal → Option ℕ × List StaffKey
staff_clamp user branch_ids db =
    let rows = load_portal_user_staff_rows user.id db in
    if is_branch_scope_role user.role
    then (none, [])
    else (clamp_staff branch_ids rows, staff_keys_of rows)

-- The scope of a user whose token was accepted; `header` is X-Portal-Account-Id.
unfoldable pub access_of : Option ℕ → User → Portal → AccessContext
access_of header user db =
    let branch_ids = load_user_access_branch_ids user db in
    let (staff_id, staff_keys) = staff_clamp user branch_ids db in
    if is_platform_admin_role user.role
    then (elim header [
      | some account ↦
          from_user user.id user.role (some account)
            (some (load_portal_account_branch_ids (some account) db)) none none [] user.is_demo
      | none ↦ from_user user.id user.role none none none none [] user.is_demo
    ])
    else from_user user.id user.role user.portal_account_id (some branch_ids) staff_id
        (some (resolve_money_metrics user.portal_account_id user.role db)) staff_keys user.is_demo

abbrev pub is_live_session : ℕ → ℕ → ℕ → RefreshToken → Bool
is_live_session user_id session_id now token =
    (token.user_id == user_id) && (token.id == session_id) && ltb now token.expires_at

-- The rows of `portal_users` joined with `portal_refresh_tokens`, after WHERE.
abbrev pub joined_users : ℕ → ℕ → ℕ → List User → List RefreshToken → List User
joined_users user_id session_id now [] tokens = []
joined_users user_id session_id now (user ∷ users) tokens =
    map (λ t. user)
      (select
        (λ (t : RefreshToken). (user.id == user_id) && is_live_session user.id session_id now t)
        tokens)
    ++ joined_users user_id session_id now users tokens

abbrev pub invalid_token : {A : Type 0} → Reply A
invalid_token = refuse 401 (codes "Invalid or expired token")

pub record Principal : Type 0 where
  pub user : User
  pub access : AccessContext

abbrev pub version_of : VersionClaim → Option ℕ
version_of absent = some 0
version_of unreadable = none
version_of (version n) = some n

-- The checks of the row that the lookup found.
unfoldable pub admit_user : Option ℕ → VersionClaim → Portal → Option User → Reply Principal
admit_user header tv db none = refuse 401 (codes "User not found or inactive")
admit_user header tv db (some user) =
    if not user.is_active
    then refuse 401 (codes "User not found or inactive")
    else elim (version_of tv) [
      | none ↦ refuse 500 (codes "ValueError")
      | some claim_tv ↦
          if claim_tv == user.token_version
          then ok (record { user = user; access = access_of header user db })
          else refuse 401 (codes "Session invalidated")
    ]

unfoldable pub admit_claims : Option ℕ → ℕ → Portal → Claims → Reply Principal
admit_claims header now db claims = elim claims.sub [
  | none ↦ invalid_token
  | some user_id ↦ elim claims.sid [
    | none ↦ invalid_token
    | some session_id ↦
        elim (one_or_none (joined_users user_id session_id now db.users db.tokens)) [
          | refused status detail ids ↦ refused status detail ids
          | ok found ↦ admit_user header claims.tv db found
        ]
  ]
]

-- The paths that answer without authentication.
abbrev pub auth_actions : List Text
auth_actions =
    codes "register"
    ∷ codes "login"
    ∷ codes "demo-login"
    ∷ codes "refresh"
    ∷ codes "logout"
    ∷ codes "verify-email"
    ∷ codes "forgot-password"
    ∷ codes "reset-password"
    ∷ []

unfoldable pub open_paths : Bool → List Text
open_paths is_production =
    codes "/health" ∷ codes "/health/ready" ∷ []
    ++ map (λ action. codes "/auth/" ++ action) auth_actions
    ++ map (λ action. codes "/dashboard/auth/" ++ action) auth_actions
    ++ (if is_production then [] else codes "/openapi.json" ∷ codes "/docs" ∷ codes "/redoc" ∷ [])

-- The parts of a request that authentication reads. The cookies stand with the CSRF check.
pub record AuthRequest : Type 0 where
  pub path : Text
  pub authorization : Option Text
  pub x_api_key : Option Text
  pub x_portal_account_id : Option ℕ
  pub csrf : CsrfRequest

pub record AuthConfig : Type 0 where
  pub api_key : Text
  pub auth_require_login : Bool
  pub is_production : Bool

-- `s.split(' ', 1)[1]` of a text with a blank in it
abbrev pub after_blank : Text → Text
after_blank [] = []
after_blank (c ∷ s) = let rest = after_blank s in if c == 32 then s else rest

abbrev pub is_bearer : Text → Bool
is_bearer header = starts_with (codes "bearer ") (lower header)

unfoldable pub extract_access_token : AuthRequest → Option Text
extract_access_token request = elim request.authorization [
  | none ↦ request.csrf.access_cookie
  | some header ↦
      if is_bearer header then some (strip (after_blank header)) else request.csrf.access_cookie
]

-- `request.state` after authentication: nobody, the holder of the API key, or a user.
pub data State : Type 0 where
  nobody key_holder : State
  user_state : Principal → State

module _ (decode : Decode) where
  unfoldable pub user_from_token : Option ℕ → ℕ → Portal → Text → Reply Principal
  user_from_token header now db token = elim (decode token) [
    | none ↦ invalid_token
    | some claims ↦ admit_claims header now db claims
  ]

  -- `enforce_csrf` after the token was accepted
  abbrev pub after_csrf : CsrfRequest → Reply Principal → Reply State
  after_csrf request (refused status detail ids) = refused status detail ids
  after_csrf request (ok principal) = elim (enforce_csrf request) [
    | refused status detail ids ↦ refused status detail ids
    | ok done ↦ ok (user_state principal)
  ]

  abbrev pub without_token : AuthConfig → AuthRequest → Reply State
  without_token config request =
      if not (is_empty config.api_key)
      then if secure_equals request.x_api_key config.api_key
        then ok key_holder
        else refuse 401 (codes "Invalid API key")
      else if not config.auth_require_login
      then ok nobody
      else refuse 401 (codes "Authentication required")

  abbrev pub with_token : AuthConfig → ℕ → Portal → AuthRequest → Option Text → Reply State
  with_token config now db request none = without_token config request
  with_token config now db request (some token) =
      if is_empty token
      then without_token config request
      else after_csrf request.csrf (user_from_token request.x_portal_account_id now db token)

  unfoldable pub require_auth : AuthConfig → ℕ → Portal → AuthRequest → Reply State
  require_auth config now db request =
      if has_text request.path (open_paths config.is_production)
      then ok nobody
      else with_token config now db request (extract_access_token request)

-- `request.state.access`
abbrev pub context_of : State → Option AccessContext
context_of nobody = none
context_of key_holder = some api_key
context_of (user_state principal) = some principal.access

abbrev pub context_or_full : AuthConfig → Option AccessContext → Reply AccessContext
context_or_full config (some ctx) = ok ctx
context_or_full config none =
    if not config.auth_require_login
    then ok api_key
    else refuse 401 (codes "Authentication required")

-- `state` is what the request holds already.
unfoldable pub get_dashboard_access :
    Decode → AuthConfig → ℕ → Portal → AuthRequest → State → Reply AccessContext
get_dashboard_access decode config now db request state = elim (context_of state) [
  | some ctx ↦ ok ctx
  | none ↦ elim (require_auth decode config now db request) [
    | refused status detail ids ↦ refused status detail ids
    | ok resolved ↦ context_or_full config (context_of resolved)
  ]
]

unfoldable pub get_current_user : State → Reply User
get_current_user nobody = refuse 401 (codes "Authentication required")
get_current_user key_holder = refuse 401 (codes "Authentication required")
get_current_user (user_state principal) = ok principal.user

-- `forbid_demo`
unfoldable pub forbid_demo : State → Reply Unit
forbid_demo nobody = ok tt
forbid_demo key_holder = ok tt
forbid_demo (user_state principal) =
    if principal.access.is_demo then refuse 403 (codes "Demo account is read-only") else ok tt

unfoldable pub require_roles : List Role → State → Reply User
require_roles roles state = elim (get_current_user state) [
  | refused status detail ids ↦ refused status detail ids
  | ok user ↦
      if has_text (role_text user.role) (map role_text roles)
      then ok user
      else refuse 403 (codes "Insufficient permissions")
]
