-- ===== src/Tests/Sessions.antt =====
-- Refresh tokens at concrete rows.
use yclients_project.Prelude.{
  ℕ, ◌+◌, ◌<◌, ◌&&◌, ltb, ◌==◌, ◌≤◌, ◌≡◌, length, List, ◌≢◌, refl, true, false, none, some, [], ◌∷◌,
  arith, inl, IsIn,
}
use yclients_project.Prelude.Rows.{select}
use yclients_project.Prelude.Text.{Text, codes}
use yclients_project.Sync.Tables.{days}
use yclients_project.Auth.{manager, Reply, ok, refused}
use yclients_project.Auth.Sessions.{
  RefreshToken, User, Store, IssuedSession, Fresh, active_sessions, max_active, unexpired,
  maintain_user_sessions, load_rotatable_refresh, session_expiry, check_age, end_session,
  one_or_none, invalid_token,
}
use yclients_project.Auth.Sessions.Rotate.{write_rotation, rotate_session}
use yclients_project.Auth.Sessions.Csrf.{CsrfRequest, enforce_csrf}
use yclients_project.Auth.Sessions.Device.{Config, Request, secure_equals}
use yclients_project.Auth.Sessions.Loading.{IsTrimmed}
use yclients_project.Auth.Sessions.Retirement.{limit_of, IsUsedLater, maintain_keeps_recent}
use yclients_project.Auth.Sessions.Rotation.{
  IsAfterRotation, rotate_session-IsAfterRotation, rotate_session-IsTrimmed,
}
use yclients_project.Auth.Sessions.Replay.{IsUnrelated, replay_ends_session}

calls : Unit {0}
unfolding unexpired maintain_user_sessions load_rotatable_refresh write_rotation rotate_session
    session_expiry check_age end_session one_or_none secure_equals enforce_csrf
calls = tt

abbrev config : Config
config = record {
  refresh_token_expire_days = 30;
  session_max_age_days = 90;
  max_active_sessions = 1;
  jwt_secret = codes "secret";
  proxy_shared_secret = [];
}

abbrev no_hash : Text → Text
no_hash s = s

abbrev pub session : RefreshToken
session = record {
  id = 1;
  user_id = 7;
  token_hash = codes "b";
  expires_at = days 10;
  last_used_at = some 5;
  user_agent = none;
  device_label = codes "Unknown device";
  ip_hash = none;
  created_at = 1;
  previous_token_hash = some (codes "a");
  rotated_at = some 5;
}

abbrev pub other : RefreshToken
other = record session { id = 2; user_id = 8; token_hash = codes "c"; previous_token_hash = none }

abbrev pub holder : User
holder = record {
  id = 7;
  portal_account_id = some 1;
  email = codes "a@b";
  full_name = some (codes "Ann");
  role = manager;
  is_active = true;
  is_demo = false;
  token_version = 0;
}

abbrev pub store : Store
store = record { tokens = session ∷ other ∷ []; next_id = 3; users = holder ∷ [] }

abbrev request : Request
request = record { user_agent = []; proxy_secret = none; forwarded_for = []; client_host = none }

abbrev fresh : Fresh
fresh = record { raw_refresh = codes "d"; csrf_token = codes "x" }

abbrev access : User → ℕ → Text
access user id = codes "jwt"

two_sessions-keyed :
    (a b : RefreshToken) → IsIn a store.tokens → IsIn b store.tokens → a.id ≡ b.id → a ≡ b
two_sessions-keyed a b i j e = ground arith

maintain_keeps_recent_example :
    ((token : RefreshToken)
      → IsIn token (maintain_user_sessions config 7 6 false store.tokens)
      → IsIn token store.tokens × (token.user_id ≡ 7 → 6 < token.expires_at))
    × ((few : List RefreshToken) × (length few ≤ limit_of config false)
        × ((token : RefreshToken)
            → IsIn token (maintain_user_sessions config 7 6 false store.tokens)
            → token.user_id ≡ 7
            → IsIn token few))
    × ((token : RefreshToken)
        → IsIn token store.tokens
        → token.user_id ≢ 7
        → IsIn token (maintain_user_sessions config 7 6 false store.tokens))
    × ((gone : RefreshToken)
        → IsIn gone store.tokens
        → gone.user_id ≡ 7
        → 6 < gone.expires_at
        → ¬ (IsIn gone (maintain_user_sessions config 7 6 false store.tokens))
        → limit_of config false
          < length (select (λ t. (t.user_id == 7) && ltb 6 t.expires_at) store.tokens))
    × ((left gone : RefreshToken)
        → IsIn left (maintain_user_sessions config 7 6 false store.tokens)
        → left.user_id ≡ 7
        → IsIn gone store.tokens
        → gone.user_id ≡ 7
        → 6 < gone.expires_at
        → ¬ (IsIn gone (maintain_user_sessions config 7 6 false store.tokens))
        → ¬ (IsUsedLater gone left))
maintain_keeps_recent_example =
    maintain_keeps_recent config 7 6 false store.tokens two_sessions-keyed

abbrev issued : IssuedSession
issued = record { access_token = codes "jwt"; refresh_token = codes "d"; csrf_token = codes "x" }

abbrev renewed : RefreshToken
renewed = record session {
  token_hash = codes "d";
  expires_at = 6 + days 30;
  last_used_at = some 6;
  previous_token_hash = some (codes "b");
  rotated_at = some 6;
}

rotate_session-IsAfterRotation_example :
    IsAfterRotation no_hash config access 6 (codes "b") request fresh store renewed
unfolding calls yclients_project.Auth.Sessions.Device.parse_device_label
    yclients_project.Auth.Sessions.Device.hash_ip yclients_project.Auth.Sessions.Device.client_ip
rotate_session-IsAfterRotation_example =
    rotate_session-IsAfterRotation no_hash config access 6 (codes "b") request fresh store holder
      issued renewed refl (inl refl)

rotate_session-IsTrimmed_example :
    IsTrimmed
      (rotate_session no_hash config access (days 1) (codes "a") request fresh store).0
      store
unfolding calls
rotate_session-IsTrimmed_example =
    rotate_session-IsTrimmed no_hash config access (days 1) (codes "a") request fresh store 401
      (codes "Invalid refresh token") [] refl

two_unmatched :
    (token : RefreshToken) → IsIn token store.tokens → token.token_hash ≢ no_hash (codes "a")
two_unmatched token i e = ground arith

two_sessions-IsUnrelated :
    (token : RefreshToken)
    → IsIn token store.tokens
    → token.id ≢ session.id
    → IsUnrelated session.token_hash token
two_sessions-IsUnrelated token i apart = (λ e. ground arith, λ e. ground arith)

abbrev replayed_store : Store
replayed_store = (rotate_session no_hash config access (days 1) (codes "a") request fresh store).0

replay_ends_session_example :
    ((rotate_session no_hash config access (days 1) (codes "a") request fresh store).1
      ≡ invalid_token)
    × ((token : RefreshToken) → IsIn token replayed_store.tokens → token.id ≢ session.id)
    × ((token : RefreshToken)
        → IsIn token store.tokens
        → token.id ≢ session.id
        → IsIn token replayed_store.tokens)
    × ((raw_current : Text) (later : ℕ) (again : Fresh)
        → no_hash raw_current ≡ session.token_hash
        → (rotate_session no_hash config access later raw_current request again replayed_store).1
          ≡ invalid_token)
replay_ends_session_example =
    replay_ends_session no_hash config access (days 1) (codes "a") request fresh store session 5
      refl two_unmatched refl (omega arith) two_sessions-IsUnrelated

abbrev posted : CsrfRequest
posted = record {
  method = codes "POST";
  access_cookie = some (codes "jwt");
  refresh_cookie = none;
  csrf_cookie = some (codes "x");
  csrf_header = some (codes "x");
}
