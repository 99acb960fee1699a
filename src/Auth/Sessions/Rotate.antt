-- ===== src/Auth/Sessions/Rotate.antt =====
-- auth_sessions.py: `issue_session` and `rotate_session`. The new row of an accepted rotation and the
-- WHERE of its update have names of their own.
use yclients_project.Prelude.{
  ℕ, ◌+◌, Bool, ◌&&◌, Option, none, some, List, [], ◌∷◌, ◌++◌, if◌then◌else◌, ◌==◌, ltb,
}
use yclients_project.Prelude.Rows.{select, update_where, first}
use yclients_project.Prelude.Text.{Text, codes, text_eq}
use yclients_project.Auth.{Reply, ok, refused, refuse}
use yclients_project.Auth.Sessions.Device.{
  Request, Config, Hash, hash_ip, client_ip, parse_device_label,
}
use yclients_project.Auth.Sessions.{
  RefreshToken, User, Store, IssuedSession, Fresh, user_agent_of, session_expiry,
  maintain_user_sessions, with_tokens, has_previous, invalid_token, load_rotatable_refresh,
}

module _ (sha256 : Hash) (config : Config) (access_token_fn : User → ℕ → Text) where
  unfoldable pub issue_session : ℕ → User → Request → Fresh → Store → Store × IssuedSession
  unfolding maintain_user_sessions session_expiry
  issue_session now user request fresh store =
      let refresh : RefreshToken = record {
        id = store.next_id;
        user_id = user.id;
        token_hash = sha256 fresh.raw_refresh;
        expires_at = session_expiry config now now;
        last_used_at = some now;
        user_agent = user_agent_of request;
        device_label = parse_device_label request.user_agent;
        ip_hash = hash_ip sha256 config (client_ip config request);
        created_at = now;
        previous_token_hash = none;
        rotated_at = none;
      } in
      let tokens = store.tokens ++ refresh ∷ [] in
      let kept = maintain_user_sessions config user.id now user.is_demo tokens in
      let issued : IssuedSession = record {
        access_token = access_token_fn user refresh.id;
        refresh_token = fresh.raw_refresh;
        csrf_token = fresh.csrf_token;
      } in
      (record store { tokens = kept; next_id = store.next_id + 1 }, issued)

  abbrev pub previous_or : Bool → Text → Option Text → Option Text
  previous_or within_grace presented old = if within_grace then old else some presented

  -- The row that `rotate_session` writes.
  abbrev pub rotated :
      ℕ → Request → Fresh → Text → Bool → RefreshToken → RefreshToken → RefreshToken
  rotated now request fresh presented within_grace refresh token = record token {
    token_hash = sha256 fresh.raw_refresh;
    rotated_at = some now;
    expires_at = session_expiry config refresh.created_at now;
    last_used_at = some now;
    user_agent = user_agent_of request;
    device_label = parse_device_label request.user_agent;
    ip_hash = hash_ip sha256 config (client_ip config request);
    previous_token_hash = previous_or within_grace presented token.previous_token_hash;
  }

  -- The WHERE of the update.
  abbrev pub still_matches : ℕ → Text → Bool → RefreshToken → RefreshToken → Bool
  still_matches now presented within_grace refresh token =
      (token.id == refresh.id)
      && (if within_grace then has_previous presented token else text_eq token.token_hash presented)
      && ltb now token.expires_at

  abbrev pub active_user : ℕ → List User → Option User
  active_user user_id users = elim (first (select (λ (u : User). u.id == user_id) users)) [
    | none ↦ none
    | some user ↦ if user.is_active then some user else none
  ]

  unfoldable pub write_rotation :
      ℕ
      → Request
      → Fresh
      → Text
      → User
      → RefreshToken
      → Bool
      → Store
      → Store × Reply (User × IssuedSession)
  unfolding maintain_user_sessions
  write_rotation now request fresh presented user refresh within_grace store =
      let matches = still_matches now presented within_grace refresh in
      let tokens =
        update_where matches (rotated now request fresh presented within_grace refresh)
          store.tokens in
      let kept = maintain_user_sessions config user.id now user.is_demo tokens in
      let issued : IssuedSession = record {
        access_token = access_token_fn user refresh.id;
        refresh_token = fresh.raw_refresh;
        csrf_token = fresh.csrf_token;
      } in
      elim (select matches store.tokens) [
        | [] ↦ (store, invalid_token)
        | token ∷ [] ↦ (with_tokens store kept, ok (user, issued))
        | token ∷ next ∷ rest ↦ (store, invalid_token)
      ]

  unfoldable pub rotate_session :
      ℕ → Text → Request → Fresh → Store → Store × Reply (User × IssuedSession)
  unfolding load_rotatable_refresh write_rotation
  rotate_session now raw_refresh request fresh store =
      let presented = sha256 raw_refresh in
      let (loaded, found) = load_rotatable_refresh config presented now store in
      elim found [
        | refused status detail ids ↦ (loaded, refused status detail ids)
        | ok (refresh, within_grace) ↦ elim (active_user refresh.user_id loaded.users) [
          | none ↦ (loaded, refuse 401 (codes "User inactive"))
          | some user ↦ write_rotation now request fresh presented user refresh within_grace loaded
        ]
      ]
