-- ===== src/Auth/Sessions.antt =====
-- auth_sessions.py: refresh tokens, their rotation and their retirement.
--
-- `portal_refresh_tokens` is the list of its rows. A refused request writes nothing but what
-- `_end_session` commits. SHA-256, random tokens and the signing of access tokens are parameters.
pub mod Csrf
pub mod Device
pub mod Loading
pub mod Retirement
pub mod Rotate
pub mod Rotation
pub mod Replay
use yclients_project.Prelude.{
  ℕ, ◌+◌, ◌-◌, ◌*◌, min, max, Bool, true, false, not, ◌&&◌, ◌||◌, Option, none, some, List, [], ◌∷◌,
  ◌++◌, map, take, drop, if◌then◌else◌, ◌==◌, ltb, leb, elem, is_empty,
}
use yclients_project.Prelude.Rows.{select, delete_where, update_where, order_by, first}
use yclients_project.Prelude.Text.{Text, codes, text_eq}
use yclients_project.Sync.Tables.{days}
use yclients_project.Auth.{Role, Reply, ok, refused, refuse}
use yclients_project.Auth.Sessions.Device.{
  Request, Config, Hash, hash_ip, client_ip, parse_device_label, is_blank, secure_equals,
}

pub record RefreshToken : Type 0 where
  pub id : ℕ
  pub user_id : ℕ
  pub token_hash : Text
  pub expires_at : ℕ
  pub last_used_at : Option ℕ
  pub user_agent : Option Text
  pub device_label : Text
  pub ip_hash : Option Text
  pub created_at : ℕ
  pub previous_token_hash : Option Text
  pub rotated_at : Option ℕ

pub record User : Type 0 where
  pub id : ℕ
  pub portal_account_id : Option ℕ
  pub email : Text
  pub full_name : Option Text
  pub role : Role
  pub is_active : Bool
  pub is_demo : Bool
  pub token_version : ℕ

pub record Store : Type 0 where
  pub tokens : List RefreshToken
  pub next_id : ℕ
  pub users : List User

pub record IssuedSession : Type 0 where
  pub access_token : Text
  pub refresh_token : Text
  pub csrf_token : Text

-- A new refresh token and a new CSRF token.
pub record Fresh : Type 0 where
  pub raw_refresh : Text
  pub csrf_token : Text

abbrev pub user_agent_of : Request → Option Text
user_agent_of request =
    if is_empty request.user_agent then none else some (take 500 request.user_agent)

-- `timedelta(seconds=30)` in microseconds
abbrev pub rotation_grace : ℕ
rotation_grace = 30 * 1000000

abbrev pub session_cap : Config → ℕ → ℕ
session_cap config created_at = created_at + days (max 1 config.session_max_age_days)

unfoldable pub session_expiry : Config → ℕ → ℕ → ℕ
session_expiry config created_at now =
    min (now + days config.refresh_token_expire_days) (session_cap config created_at)

-- ORDER BY last_used_at DESC NULLS LAST, id DESC
abbrev pub more_recent : RefreshToken → RefreshToken → Bool
more_recent a b = elim a.last_used_at [
  | none ↦ elim b.last_used_at [ none ↦ leb b.id a.id | some y ↦ false ]
  | some x ↦ elim b.last_used_at [
    | none ↦ true
    | some y ↦ if x == y then leb b.id a.id else leb y x
  ]
]

abbrev pub is_active_of : ℕ → ℕ → RefreshToken → Bool
is_active_of user_id now token = (token.user_id == user_id) && ltb now token.expires_at

abbrev pub active_sessions : ℕ → ℕ → List RefreshToken → List RefreshToken
active_sessions user_id now tokens = order_by more_recent (select (is_active_of user_id now) tokens)

abbrev pub max_active : Config → Bool → ℕ
max_active config is_demo = if is_demo then 200 else max 1 config.max_active_sessions

unfoldable pub unexpired : ℕ → ℕ → List RefreshToken → List RefreshToken
unexpired user_id now tokens =
    delete_where (λ (t : RefreshToken). (t.user_id == user_id) && leb t.expires_at now) tokens

unfoldable pub maintain_user_sessions :
    Config → ℕ → ℕ → Bool → List RefreshToken → List RefreshToken
unfolding unexpired
maintain_user_sessions config user_id now is_demo tokens =
    let kept = unexpired user_id now tokens in
    let excess =
      map (λ (t : RefreshToken). t.id)
        (drop (max_active config is_demo) (active_sessions user_id now kept)) in
    if is_empty excess then kept else delete_where (λ (t : RefreshToken). elem t.id excess) kept

abbrev pub with_tokens : Store → List RefreshToken → Store
with_tokens store tokens = record store { tokens = tokens }

unfoldable pub revoke_refresh : Hash → Text → Store → Store
revoke_refresh sha256 raw_refresh store =
    with_tokens store
      (delete_where (λ (t : RefreshToken). text_eq t.token_hash (sha256 raw_refresh)) store.tokens)

unfoldable pub revoke_user_sessions : ℕ → Store → Store
revoke_user_sessions user_id store =
    with_tokens store (delete_where (λ (t : RefreshToken). t.user_id == user_id) store.tokens)

-- The written user of `bump_user_token_version`; `token_version` is not nullable.
unfoldable pub bump_user_token_version : User → User
bump_user_token_version user = record user { token_version = user.token_version + 1 }

unfoldable pub list_user_sessions : Config → ℕ → ℕ → Bool → Store → Store × List RefreshToken
unfolding maintain_user_sessions
list_user_sessions config user_id now is_demo store =
    let tokens = maintain_user_sessions config user_id now is_demo store.tokens in
    (with_tokens store tokens, active_sessions user_id now tokens)

abbrev pub is_session_of : ℕ → ℕ → RefreshToken → Bool
is_session_of user_id session_id token = (token.id == session_id) && (token.user_id == user_id)

unfoldable pub revoke_session_by_id : ℕ → ℕ → Store → Store × Bool
revoke_session_by_id user_id session_id store = (
  with_tokens store (delete_where (is_session_of user_id session_id) store.tokens),
  not (is_empty (select (is_session_of user_id session_id) store.tokens)),
)

unfoldable pub end_session : RefreshToken → Store → Store
end_session refresh store =
    with_tokens store (delete_where (λ (t : RefreshToken). t.id == refresh.id) store.tokens)

-- `scalar_one_or_none`, which raises on several rows.
unfoldable pub one_or_none : {A : Type 0} → List A → Reply (Option A)
one_or_none [] = ok none
one_or_none (x ∷ []) = ok (some x)
one_or_none (x ∷ y ∷ xs) = refuse 500 (codes "MultipleResultsFound")

abbrev pub has_previous : Text → RefreshToken → Bool
has_previous hash token = elim token.previous_token_hash [ none ↦ false | some h ↦ text_eq h hash ]

abbrev pub is_within_grace : ℕ → RefreshToken → Bool
is_within_grace now token = elim token.rotated_at [
  | none ↦ false
  | some t ↦ leb now (t + rotation_grace)
]

abbrev pub invalid_token : {A : Type 0} → Reply A
invalid_token = refuse 401 (codes "Invalid refresh token")

abbrev pub expired_token : {A : Type 0} → Reply A
expired_token = refuse 401 (codes "Refresh token expired or revoked")

-- The checks that follow the lookup; the flag says that the token matched only as the previous
-- one.
unfoldable pub check_age :
    Config → ℕ → RefreshToken → Bool → Store → Store × Reply (RefreshToken × Bool)
unfolding end_session
check_age config now refresh within_grace store =
    if ltb refresh.expires_at now
    then (store, expired_token)
    else if leb (session_cap config refresh.created_at) now
    then (end_session refresh store, expired_token)
    else (store, ok (refresh, within_grace))

unfoldable pub load_rotatable_refresh :
    Config → Text → ℕ → Store → Store × Reply (RefreshToken × Bool)
unfolding check_age end_session one_or_none
load_rotatable_refresh config hash now store =
    elim (one_or_none (select (λ (t : RefreshToken). text_eq t.token_hash hash) store.tokens)) [
      | refused status detail ids ↦ (store, refused status detail ids)
      | ok (some refresh) ↦ check_age config now refresh false store
      | ok none ↦ elim (one_or_none (select (has_previous hash) store.tokens)) [
        | refused status detail ids ↦ (store, refused status detail ids)
        | ok none ↦ (store, invalid_token)
        | ok (some refresh) ↦
            if is_within_grace now refresh
            then check_age config now refresh true store
            else (end_session refresh store, invalid_token)
      ]
    ]
