-- ===== src/Auth/Sessions/Replay.antt =====
-- auth_sessions.py: the use of a refresh token that was rotated away.
use yclients_project.Prelude.{
  true, ==_refl, ◌≤◌, ℕ, ◌+◌, ◌<◌, ◌≡◌, ◌≢◌, refl, sym, ap, subst, ◌∙◌, Bool, false, Option-cases,
  some, List, [], ◌∷◌, arith, Bool-cases, inl, inr, IsIn,
}
use yclients_project.Prelude.Rows.{IsIn-select, select}
use yclients_project.Prelude.Text.{Text, text_eq, text_eq→≡}
use yclients_project.Auth.{ok}
use yclients_project.Auth.Sessions.{
  check_age, session_cap, load_rotatable_refresh, RefreshToken, User, Store, Fresh, end_session,
  one_or_none, has_previous, is_within_grace, invalid_token, load_rotatable_refresh,
}
use yclients_project.Auth.Sessions.Rotate.{
  still_matches, active_user, write_rotation, rotate_session,
}
use yclients_project.Prelude.Cuts.{select-select}
use yclients_project.Auth.Sessions.Device.{Config, Hash, Request}
use yclients_project.Auth.Sessions.Loading.{
  IsTrimmed, end_session_gone, end_session_rest, end_session-IsTrimmed,
}

late :
    (now : ℕ) (refresh : RefreshToken) (t : ℕ)
    → refresh.rotated_at ≡ some t
    → t + 30000000 < now
    → is_within_grace now refresh ≡ false
late now refresh t e h = ground arith

select-nil :
    {A : Type 0} (p : A → Bool) (xs : List A)
    → ((x : A) → IsIn x xs → p x ≡ false)
    → select p xs ≡ []
select-nil p [] h = refl
select-nil p (x ∷ xs) h =
    let rest = select-nil p xs (λ y i. h y (inr i)) in rw (h x (inl refl)) rest

not_text_eq : (s t : Text) → s ≢ t → text_eq s t ≡ false
not_text_eq s t other = elim (Bool-cases (text_eq s t)) [
  | inl e ↦ absurd (other (text_eq→≡ s t e))
  | inr e ↦ e
]

not_has_previous :
    (hash : Text) (token : RefreshToken)
    → token.previous_token_hash ≢ some hash
    → has_previous hash token ≡ false
not_has_previous hash token other = elim (Bool-cases (has_previous hash token)) [
  | inr e ↦ e
  | inl e ↦ elim (Option-cases token.previous_token_hash) [
    | inl f ↦ ground arith
    | inr (h, f) ↦ absurd (other (f ∙ ap some (text_eq→≡ h hash (ground arith))))
  ]
]

-- The hash is neither the current nor the previous one of the session.
abbrev pub IsUnrelated : Text → RefreshToken → Type 0
IsUnrelated hash token = (token.token_hash ≢ hash) × (token.previous_token_hash ≢ some hash)

module _ (sha256 : Hash) (config : Config) (access_token_fn : User → ℕ → Text) (now : ℕ)
    (raw_refresh : Text) (request : Request) (fresh : Fresh) (store : Store) where
  replayed :
      (refresh : RefreshToken)
      → select (λ (t : RefreshToken). text_eq t.token_hash (sha256 raw_refresh)) store.tokens ≡ []
      → select (has_previous (sha256 raw_refresh)) store.tokens ≡ refresh ∷ []
      → is_within_grace now refresh ≡ false
      → rotate_session sha256 config access_token_fn now raw_refresh request fresh store
        ≡ (end_session refresh store, invalid_token)
  unfolding rotate_session load_rotatable_refresh one_or_none
  replayed refresh unmatched previous late = ground arith

  unknown_token :
      select (λ (t : RefreshToken). text_eq t.token_hash (sha256 raw_refresh)) store.tokens ≡ []
      → select (has_previous (sha256 raw_refresh)) store.tokens ≡ []
      → (rotate_session sha256 config access_token_fn now raw_refresh request fresh store).1
        ≡ invalid_token
  unfolding rotate_session load_rotatable_refresh one_or_none
  unknown_token unmatched previous = ground arith

module _ (sha256 : Hash) (config : Config) (access_token_fn : User → ℕ → Text) (now : ℕ)
    (raw_refresh : Text) (request : Request) (fresh : Fresh) where
  -- A token that no session has as its current or previous one is refused.
  refused_unrelated :
      (store : Store)
      → ((token : RefreshToken) → IsIn token store.tokens → IsUnrelated (sha256 raw_refresh) token)
      → (rotate_session sha256 config access_token_fn now raw_refresh request fresh store).1
        ≡ invalid_token
  refused_unrelated store h =
      unknown_token sha256 config access_token_fn now raw_refresh request fresh store
        (select-nil _ store.tokens (λ token i. not_text_eq _ _ (h token i).0))
        (select-nil _ store.tokens (λ token i. not_has_previous _ token (h token i).1))

  ended_refused :
      (store : Store) (refresh : RefreshToken)
      → sha256 raw_refresh ≡ refresh.token_hash
      → ((token : RefreshToken)
          → IsIn token store.tokens
          → token.id ≢ refresh.id
          → IsUnrelated refresh.token_hash token)
      → (rotate_session sha256 config access_token_fn now raw_refresh request fresh
          (end_session refresh store)).1
        ≡ invalid_token
  unfolding IsTrimmed
  ended_refused store refresh same alone = refused_unrelated (end_session refresh store) (λ token i.
      subst (λ z. IsUnrelated z token) (sym same)
        (alone token ((end_session-IsTrimmed refresh store).0 token i)
          (end_session_gone refresh store token i)))

module _ (sha256 : Hash) (config : Config) (access_token_fn : User → ℕ → Text) (now : ℕ)
    (raw_refresh : Text) (request : Request) (fresh : Fresh) (store : Store) where
  -- Let a token be the previous one of exactly one session and the current one of none, let it
  -- have been rotated away more than 30 seconds ago, and let the session's current token belong
  -- to no other session. Its use is refused and ends that session and no other; and from then on
  -- the session's current token is refused too, at any time.
  pub replay_ends_session :
      (refresh : RefreshToken) (t : ℕ)
      → select (has_previous (sha256 raw_refresh)) store.tokens ≡ refresh ∷ []
      → ((token : RefreshToken) → IsIn token store.tokens → token.token_hash ≢ sha256 raw_refresh)
      → refresh.rotated_at ≡ some t
      → t + 30000000 < now
      → ((token : RefreshToken)
          → IsIn token store.tokens
          → token.id ≢ refresh.id
          → IsUnrelated refresh.token_hash token)
      → let (after, reply) =
          rotate_session sha256 config access_token_fn now raw_refresh request fresh store in
        (reply ≡ invalid_token)
        × ((token : RefreshToken) → IsIn token after.tokens → token.id ≢ refresh.id)
        × ((token : RefreshToken)
            → IsIn token store.tokens
            → token.id ≢ refresh.id
            → IsIn token after.tokens)
        × ((raw_current : Text) (later : ℕ) (again : Fresh)
            → sha256 raw_current ≡ refresh.token_hash
            → (rotate_session sha256 config access_token_fn later raw_current request again after).1
              ≡ invalid_token)
  replay_ends_session refresh t previous unmatched e past alone =
      let q =
        replayed sha256 config access_token_fn now raw_refresh request fresh store refresh
          (select-nil _ store.tokens (λ token i. not_text_eq _ _ (unmatched token i))) previous
          (late now refresh t e past) in
      rw q (
        refl,
        λ token i. end_session_gone refresh store token i,
        λ token i other. end_session_rest refresh store token i other,
        λ raw_current later again same.
            ended_refused sha256 config access_token_fn later raw_current request again store
              refresh same alone,
      )

module _ (sha256 : Hash) (config : Config) (access_token_fn : User → ℕ → Text) (now : ℕ)
    (raw_refresh : Text) (request : Request) (fresh : Fresh) (store : Store) where
  found_in_grace :
      (refresh : RefreshToken) (t : ℕ)
      → select (λ (t : RefreshToken). text_eq t.token_hash (sha256 raw_refresh)) store.tokens ≡ []
      → select (has_previous (sha256 raw_refresh)) store.tokens ≡ refresh ∷ []
      → refresh.rotated_at ≡ some t
      → now ≤ t + 30000000
      → now < refresh.expires_at
      → now < session_cap config refresh.created_at
      → load_rotatable_refresh config (sha256 raw_refresh) now store ≡ (store, ok (refresh, true))
  unfolding load_rotatable_refresh one_or_none check_age
  found_in_grace refresh t unmatched previous e soon live young = ground arith

  -- The WHERE of the update finds that one row.
  written_in_grace :
      (refresh : RefreshToken)
      → select (has_previous (sha256 raw_refresh)) store.tokens ≡ refresh ∷ []
      → now < refresh.expires_at
      → select
          (still_matches sha256 config access_token_fn now (sha256 raw_refresh) true refresh)
          store.tokens
        ≡ refresh ∷ []
  written_in_grace refresh previous live =
      let matches =
        still_matches sha256 config access_token_fn now (sha256 raw_refresh) true refresh in
      let holds : has_previous (sha256 raw_refresh) refresh ≡ true =
        (IsIn-select (has_previous (sha256 raw_refresh)) refresh store.tokens
          (subst (λ rows. IsIn refresh rows) (sym previous) (inl refl))).1 in
      let here : matches refresh ≡ true = ground (arith, ==_refl refresh.id) in
      sym (
        select-select matches (has_previous (sha256 raw_refresh)) store.tokens
          (λ x h. ground arith))
      ∙ ap (select matches) previous
      ∙ rw here refl

  -- The previous token of exactly one session, which has not ended, is accepted within the 30
  -- seconds after its rotation.
  accepted_in_grace :
      (refresh : RefreshToken) (t : ℕ) (holder : User)
      → select (λ (t : RefreshToken). text_eq t.token_hash (sha256 raw_refresh)) store.tokens ≡ []
      → select (has_previous (sha256 raw_refresh)) store.tokens ≡ refresh ∷ []
      → refresh.rotated_at ≡ some t
      → now ≤ t + 30000000
      → now < refresh.expires_at
      → now < session_cap config refresh.created_at
      → active_user sha256 config access_token_fn refresh.user_id store.users ≡ some holder
      → (rotate_session sha256 config access_token_fn now raw_refresh request fresh store).1
        ≡ ok (
          holder,
          record {
            access_token = access_token_fn holder refresh.id;
            refresh_token = fresh.raw_refresh;
            csrf_token = fresh.csrf_token;
          },
        )
  unfolding rotate_session write_rotation
  accepted_in_grace refresh t holder unmatched previous e soon live young active =
      let found = found_in_grace refresh t unmatched previous e soon live young in
      let written = written_in_grace refresh previous live in ground arith
