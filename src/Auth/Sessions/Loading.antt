-- ===== src/Auth/Sessions/Loading.antt =====
-- auth_sessions.py: what the lookup of a refresh token finds, and what it ends.
use yclients_project.Prelude.{
  ℕ, ◌<◌, ◌≤◌, ◌≡◌, ◌≢◌, ◌⊎◌, Bool, not, some, List, [], ◌∷◌, arith, inl, inr, IsIn, ◌==◌,
}
use yclients_project.Prelude.Rows.{select, IsIn-select, select-IsIn}
use yclients_project.Prelude.Text.{Text, text_eq}
use yclients_project.Auth.{ok}
use yclients_project.Auth.Sessions.{
  RefreshToken, Store, session_cap, session_expiry, end_session, one_or_none, has_previous,
  check_age, load_rotatable_refresh,
}
use yclients_project.Auth.Sessions.Device.{Config}

pub one_or_none-IsIn : {A : Type 0} (x : A) (xs : List A) → one_or_none xs ≡ ok (some x) → IsIn x xs
unfolding one_or_none
one_or_none-IsIn x [] h = cc
one_or_none-IsIn x (y ∷ []) h = inl (ground arith)
one_or_none-IsIn x (y ∷ z ∷ xs) h = cc

-- No session is new or changed, and those that are gone all have one id.
unfoldable pub IsTrimmed : Store → Store → Type 0
IsTrimmed after store =
    ((token : RefreshToken) → IsIn token after.tokens → IsIn token store.tokens)
    × (id : ℕ) × ((token : RefreshToken)
        → IsIn token store.tokens
        → token.id ≢ id
        → IsIn token after.tokens)

pub end_session_rest :
    (refresh : RefreshToken) (store : Store) (token : RefreshToken)
    → IsIn token store.tokens
    → token.id ≢ refresh.id
    → IsIn token (end_session refresh store).tokens
unfolding end_session
end_session_rest refresh store token i other =
    select-IsIn (λ (t : RefreshToken). not (t.id == refresh.id)) token store.tokens i (ground arith)

pub end_session-IsTrimmed :
    (refresh : RefreshToken) (store : Store) → IsTrimmed (end_session refresh store) store
unfolding end_session IsTrimmed
end_session-IsTrimmed refresh store = (
  λ token i. (IsIn-select (λ (t : RefreshToken). not (t.id == refresh.id)) token store.tokens i).0,
  refresh.id,
  λ token i other. end_session_rest refresh store token i other,
)

pub end_session_gone :
    (refresh : RefreshToken) (store : Store) (token : RefreshToken)
    → IsIn token (end_session refresh store).tokens
    → token.id ≢ refresh.id
unfolding end_session
end_session_gone refresh store token i e =
    let (j, h) =
      IsIn-select (λ (t : RefreshToken). not (t.id == refresh.id)) token store.tokens i in
    ground arith

pub session_expiry_le_cap :
    (config : Config) (created_at now : ℕ)
    → session_expiry config created_at now ≤ session_cap config created_at
unfolding session_expiry
session_expiry_le_cap config created_at now = ground arith

pub IsTrimmed-refl : (store : Store) → IsTrimmed store store
unfolding IsTrimmed
IsTrimmed-refl store = (λ token i. i, 0, λ token i other. i)

module _ (config : Config) (hash : Text) (now : ℕ) (store : Store) where
  pub check-IsTrimmed :
      (refresh : RefreshToken) (within_grace : Bool)
      → IsTrimmed (check_age config now refresh within_grace store).0 store
  unfolding check_age
  check-IsTrimmed refresh within_grace = grind (arith, end_session-IsTrimmed, IsTrimmed-refl)

  pub load-IsTrimmed : IsTrimmed (load_rotatable_refresh config hash now store).0 store
  unfolding load_rotatable_refresh
  load-IsTrimmed = grind (arith, end_session-IsTrimmed, IsTrimmed-refl, check-IsTrimmed)

  pub check_age_ok :
      (old refresh : RefreshToken) (late within_grace : Bool)
      → (check_age config now old late store).1 ≡ ok (refresh, within_grace)
      → (refresh ≡ old)
        × ((check_age config now old late store).0 ≡ store)
        × now < session_cap config old.created_at
  unfolding check_age
  check_age_ok old refresh late within_grace h = (ground arith, ground arith, ground arith)

  pub load_found :
      (refresh : RefreshToken) (within_grace : Bool)
      → (load_rotatable_refresh config hash now store).1 ≡ ok (refresh, within_grace)
      → (one_or_none (select (λ (t : RefreshToken). text_eq t.token_hash hash) store.tokens)
          ≡ ok (some refresh))
        ⊎ (one_or_none (select (has_previous hash) store.tokens) ≡ ok (some refresh))
  unfolding load_rotatable_refresh check_age
  load_found refresh within_grace h = ground arith

  pub load-IsIn :
      (refresh : RefreshToken) (within_grace : Bool)
      → (load_rotatable_refresh config hash now store).1 ≡ ok (refresh, within_grace)
      → IsIn refresh store.tokens
  load-IsIn refresh within_grace h =
      let current = λ (t : RefreshToken). text_eq t.token_hash hash in
      elim (load_found refresh within_grace h) [
        | inl e ↦
            (IsIn-select current refresh store.tokens
              (one_or_none-IsIn refresh (select current store.tokens) e)).0
        | inr e ↦
            ((IsIn-select (has_previous hash) refresh store.tokens
              (one_or_none-IsIn refresh (select (has_previous hash) store.tokens) e)).0)
      ]

  pub load_ok :
      (refresh : RefreshToken) (within_grace : Bool)
      → (load_rotatable_refresh config hash now store).1 ≡ ok (refresh, within_grace)
      → ((load_rotatable_refresh config hash now store).0 ≡ store)
        × IsIn refresh store.tokens
        × now < session_cap config refresh.created_at
  unfolding load_rotatable_refresh check_age
  load_ok refresh within_grace h = (ground arith, load-IsIn refresh within_grace h, ground arith)
