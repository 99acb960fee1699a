-- ===== src/Auth/Sessions/Rotation.antt =====
-- auth_sessions.py: the sessions after an accepted and after a refused rotation.
use yclients_project.Prelude.{
  ℕ, ◌<◌, ◌≤◌, ◌≡◌, ◌⊎◌, refl, sym, ap, subst, ◌∙◌, Bool, if◌then◌else◌, Option-cases, none, some,
  List, arith, Bool-cases, inl, inr, IsIn,
}
use yclients_project.Prelude.Rows.{IsIn-update, update_where}
use yclients_project.Prelude.Text.{Text}
use yclients_project.Auth.{Reply, ok, refused}
use yclients_project.Auth.Sessions.{
  RefreshToken, User, Store, IssuedSession, Fresh, session_cap, load_rotatable_refresh,
  maintain_user_sessions,
}
use yclients_project.Auth.Sessions.Rotate.{
  rotated, still_matches, active_user, write_rotation, rotate_session,
}
use yclients_project.Auth.Sessions.Device.{Config, Hash, Request}
use yclients_project.Auth.Sessions.Retirement.{maintain_user_sessions_lem}
use yclients_project.Auth.Sessions.Loading.{
  IsTrimmed, session_expiry_le_cap, load-IsTrimmed, load_ok,
}

module _ (sha256 : Hash) (config : Config) (access_token_fn : User → ℕ → Text) (now : ℕ)
    (raw_refresh : Text) (request : Request) (fresh : Fresh) (store : Store) where
  -- A refused rotation adds no session and changes none, and the sessions that it ends all have
  -- one id: with distinct ids it ends at most one.
  pub rotate_session-IsTrimmed :
      (status : ℕ) (detail : Text) (ids : List ℕ)
      → (rotate_session sha256 config access_token_fn now raw_refresh request fresh store).1
        ≡ refused status detail ids
      → IsTrimmed
          (rotate_session sha256 config access_token_fn now raw_refresh request fresh store).0
          store
  unfolding rotate_session write_rotation
  rotate_session-IsTrimmed status detail ids h = grind (arith, load-IsTrimmed)

  abbrev pub presented : Text
  presented = sha256 raw_refresh

  -- What an accepted rotation has written, for the session that it found.
  write_accepted :
      (user found : User) (refresh : RefreshToken) (within_grace : Bool) (issued : IssuedSession)
      → (write_rotation sha256 config access_token_fn now request fresh presented found refresh
          within_grace store).1
        ≡ ok (user, issued)
      → (write_rotation sha256 config access_token_fn now request fresh presented found refresh
          within_grace store).0.tokens
        ≡ maintain_user_sessions config found.id now found.is_demo (
            update_where
              (still_matches sha256 config access_token_fn now presented within_grace refresh)
              (rotated sha256 config access_token_fn now request fresh presented within_grace
                refresh)
              store.tokens)
  unfolding write_rotation
  write_accepted user found refresh within_grace issued h = ground arith

  -- Of an accepted rotation: a session that is left is one that was there, or carries the new
  -- token and ends within the age that its session is allowed, which is not over yet.
  abbrev pub IsAfterRotation : RefreshToken → Type 0
  IsAfterRotation token =
      IsIn token store.tokens
      ⊎ ((refresh : RefreshToken) × IsIn refresh store.tokens
          × (token.id ≡ refresh.id)
          × (token.token_hash ≡ sha256 fresh.raw_refresh)
          × (token.rotated_at ≡ some now)
          × token.expires_at ≤ session_cap config refresh.created_at
          × now < session_cap config refresh.created_at)

  rotated_row :
      (refresh token old : RefreshToken) (within_grace : Bool)
      → now < session_cap config refresh.created_at
      → IsIn refresh store.tokens
      → IsIn old store.tokens
      → (if still_matches sha256 config access_token_fn now presented within_grace refresh old
          then rotated sha256 config access_token_fn now request fresh presented within_grace
              refresh old
          else old)
        ≡ token
      → IsAfterRotation token
  rotated_row refresh token old within_grace young here i e =
      elim (Bool-cases
        (still_matches sha256 config access_token_fn now presented within_grace refresh old)) [
          | inr f ↦ inl (subst (λ z. IsIn z store.tokens) (rw f at e) i)
          | inl f ↦ inr (
              let q = rw f at e in
              (
                refresh,
                here,
                ap (λ (z : RefreshToken). z.id) (sym q) ∙ ground arith,
                ap (λ (z : RefreshToken). z.token_hash) (sym q),
                ap (λ (z : RefreshToken). z.rotated_at) (sym q),
                subst (λ (z : RefreshToken). z.expires_at ≤ session_cap config refresh.created_at) q
                    (session_expiry_le_cap config refresh.created_at now),
                young,
              ))
        ]

  write-IsAfterRotation :
      (user found : User) (refresh : RefreshToken) (within_grace : Bool) (issued : IssuedSession)
      (token : RefreshToken)
      → now < session_cap config refresh.created_at
      → IsIn refresh store.tokens
      → (write_rotation sha256 config access_token_fn now request fresh presented found refresh
          within_grace store).1
        ≡ ok (user, issued)
      → IsIn token
          (write_rotation sha256 config access_token_fn now request fresh presented found refresh
            within_grace store).0.tokens
      → IsAfterRotation token
  write-IsAfterRotation user found refresh within_grace issued token young here h i =
      let matches =
        still_matches sha256 config access_token_fn now presented within_grace refresh in
      let writes =
        rotated sha256 config access_token_fn now request fresh presented within_grace refresh in
      let tokens = update_where matches writes store.tokens in
      let j =
        (maintain_user_sessions_lem config found.id now found.is_demo tokens token (
          subst (λ z. IsIn token z) (write_accepted user found refresh within_grace issued h)
            i)).0 in
      let (old, k, e) = IsIn-update matches writes token store.tokens j in
      rotated_row refresh token old within_grace young here k e

  no_session :
      (user : User) (issued : IssuedSession) (status : ℕ) (detail : Text) (ids : List ℕ)
      → (load_rotatable_refresh config presented now store).1 ≡ refused status detail ids
      → (rotate_session sha256 config access_token_fn now raw_refresh request fresh store).1
        ≡ ok (user, issued)
      → ⊥
  unfolding rotate_session
  no_session user issued status detail ids e h = ground arith

  no_user :
      (user : User) (issued : IssuedSession) (refresh : RefreshToken) (within_grace : Bool)
      → (load_rotatable_refresh config presented now store).1 ≡ ok (refresh, within_grace)
      → (load_rotatable_refresh config presented now store).0 ≡ store
      → active_user sha256 config access_token_fn refresh.user_id store.users ≡ none
      → (rotate_session sha256 config access_token_fn now raw_refresh request fresh store).1
        ≡ ok (user, issued)
      → ⊥
  unfolding rotate_session
  no_user user issued refresh within_grace e same f h = ground arith

  accepted_path :
      (refresh : RefreshToken) (within_grace : Bool) (holder : User)
      → (load_rotatable_refresh config presented now store).1 ≡ ok (refresh, within_grace)
      → active_user sha256 config access_token_fn refresh.user_id store.users ≡ some holder
      → (load_rotatable_refresh config presented now store).0 ≡ store
      → rotate_session sha256 config access_token_fn now raw_refresh request fresh store
        ≡ write_rotation sha256 config access_token_fn now request fresh presented holder refresh
            within_grace store
  unfolding rotate_session
  accepted_path refresh within_grace holder e f same = ground arith

  Reply-cases :
      {A : Type 0} (r : Reply A)
      → ((a : A) × (r ≡ ok a))
        ⊎ ((status : ℕ) × (detail : Text) × (ids : List ℕ) × (r ≡ refused status detail ids))
  Reply-cases (ok a) = inl (a, refl)
  Reply-cases (refused status detail ids) = inr (status, detail, ids, refl)

  -- An accepted rotation leaves every session either as it was or with the new token and an end
  -- that respects the age limit of the session, and the limit has not been reached.
  pub rotate_session-IsAfterRotation :
      (user : User) (issued : IssuedSession) (token : RefreshToken)
      → (rotate_session sha256 config access_token_fn now raw_refresh request fresh store).1
        ≡ ok (user, issued)
      → IsIn token
          (rotate_session sha256 config access_token_fn now raw_refresh request fresh
            store).0.tokens
      → IsAfterRotation token
  rotate_session-IsAfterRotation user issued token h i =
      elim (Reply-cases (load_rotatable_refresh config presented now store).1) [
        | inr (status, detail, ids, e) ↦ absurd (no_session user issued status detail ids e h)
        | inl (found, e) ↦
            elim (Option-cases
              (active_user sha256 config access_token_fn found.0.user_id store.users)) [
                | inl f ↦ absurd (
                    no_user user issued found.0 found.1 e
                      (load_ok config presented now store found.0 found.1 e).0 f h)
                | inr (holder, f) ↦
                    (let (same, here, young) =
                        load_ok config presented now store found.0 found.1 e in
                      let q = accepted_path found.0 found.1 holder e f same in
                      write-IsAfterRotation user holder found.0 found.1 issued token young here
                        (ap (λ (r : Store × Reply (User × IssuedSession)). r.1) (sym q) ∙ h)
                        (subst (λ (r : Store × Reply (User × IssuedSession)). IsIn token r.0.tokens)
                          q i))
              ]
      ]
