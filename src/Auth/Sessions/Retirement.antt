-- ===== src/Auth/Sessions/Retirement.antt =====
-- auth_sessions.py: which sessions `_maintain_user_sessions` leaves.
use yclients_project.Prelude.{
  if◌then◌else◌, max, ltb, elem_not, ℕ, ◌<◌, ◌≡◌, ◌≢◌, ◌⊎◌, refl, sym, ap, ◌∙◌, Bool, true, false,
  not, ◌&&◌, none, some, ◌≤◌, length, subst, List, [], ◌∷◌, map, take, drop, arith, Bool-cases, inl,
  inr, IsIn, IsIn-map, map-IsIn, elem, elem→IsIn, is_empty, leb, ◌==◌,
}
use yclients_project.Prelude.Rows.{
  select, IsIn-select, select-IsIn, order_by-IsIn, IsIn-order_by, IsOrder, order_by-IsSorted,
}
use yclients_project.Prelude.Cuts.{
  take_or_drop, drop-IsIn, length-take, take-le-drop, length-order_by, drop-length, select-select,
}
use yclients_project.Auth.Sessions.{
  RefreshToken, unexpired, active_sessions, is_active_of, max_active, more_recent,
  maintain_user_sessions,
}
use yclients_project.Auth.Sessions.Device.{Config}

more_recent-IsOrder : IsOrder more_recent
more_recent-IsOrder = record { total = λ a b h. ground arith; trans = λ a b c h k. ground arith }

-- `a` was used, and `b` was used before it or never.
abbrev pub IsUsedLater : RefreshToken → RefreshToken → Type 0
IsUsedLater a b =
    (t : ℕ) × (a.last_used_at ≡ some t)
    × ((b.last_used_at ≡ none) ⊎ ((u : ℕ) × (b.last_used_at ≡ some u) × u < t))

more_recent_not_later : (a b : RefreshToken) → more_recent a b ≡ true → ¬ (IsUsedLater b a)
more_recent_not_later a b h (t, e, inl unused) = ground arith
more_recent_not_later a b h (t, e, inr (u, f, earlier)) = ground arith

-- MAX_ACTIVE_SESSIONS, at least 1, and 200 for a demo user.
abbrev pub limit_of : Config → Bool → ℕ
limit_of config is_demo = if is_demo then 200 else max 1 config.max_active_sessions

empty_elem : (a : ℕ) (ids : List ℕ) → is_empty ids ≡ true → elem a ids ≡ false
empty_elem a [] h = refl
empty_elem a (x ∷ xs) h = ground arith

module _ (config : Config) (user_id now : ℕ) (is_demo : Bool) (tokens : List RefreshToken) where
  id_of : RefreshToken → ℕ
  id_of token = token.id

  kept : List RefreshToken
  kept = unexpired user_id now tokens

  excess : List ℕ
  unfolding kept
  excess =
      map (λ (t : RefreshToken). t.id)
        (drop (max_active config is_demo) (active_sessions user_id now kept))

  survives :
      (token : RefreshToken)
      → IsIn token (maintain_user_sessions config user_id now is_demo tokens)
      → IsIn token kept × (elem token.id excess ≡ false)
  unfolding maintain_user_sessions excess kept
  survives token i = elim (Bool-cases (is_empty excess)) [
    | inl e ↦ (rw e at i, empty_elem token.id excess e)
    | inr e ↦
        (let (j, h) =
            IsIn-select (λ (t : RefreshToken). not (elem t.id excess)) token kept (rw e at i) in
          (j, ground arith))
  ]

  stays :
      (token : RefreshToken)
      → IsIn token kept
      → elem token.id excess ≡ false
      → IsIn token (maintain_user_sessions config user_id now is_demo tokens)
  unfolding maintain_user_sessions excess kept
  stays token i h = elim (Bool-cases (is_empty excess)) [
    | inl e ↦ rw e i
    | inr e ↦
        rw e (select-IsIn (λ (t : RefreshToken). not (elem t.id excess)) token kept i (ap not h))
  ]

  -- Every session that is left was there before; one of the user is still valid and is among the
  -- most recently used ones, of which there are at most the limit.
  pub maintain_user_sessions_lem :
      (token : RefreshToken)
      → IsIn token (maintain_user_sessions config user_id now is_demo tokens)
      → IsIn token tokens
        × (token.user_id ≡ user_id
            → now < token.expires_at
              × IsIn token (
                  take
                    (max_active config is_demo)
                    (active_sessions user_id now (unexpired user_id now tokens))))
  unfolding unexpired excess kept
  maintain_user_sessions_lem token i =
      let (j, h) = survives token i in
      let (k, g) =
        IsIn-select (λ (t : RefreshToken). not ((t.user_id == user_id) && leb t.expires_at now))
          token tokens j in
      (
        k,
        λ mine.
            let live : now < token.expires_at = ground arith in
            let sorted =
              order_by-IsIn more_recent token (select (is_active_of user_id now) kept)
                (select-IsIn (is_active_of user_id now) token kept j (ground arith)) in
            (
              live,
              elim (take_or_drop (max_active config is_demo) token
                  (active_sessions user_id now kept) sorted) [
                    | inl m ↦ m
                    | inr m ↦
                        (let there =
                            map-IsIn (λ (t : RefreshToken). t.id) token
                              (drop (max_active config is_demo) (active_sessions user_id now kept))
                              m in
                          absurd (elem_not token.id excess h there))
                  ],
            ),
      )

  sorted : List RefreshToken
  unfolding kept
  sorted = active_sessions user_id now kept

  recent : List RefreshToken
  unfolding sorted
  recent = take (max_active config is_demo) sorted

  mine_recent :
      (token : RefreshToken)
      → IsIn token (maintain_user_sessions config user_id now is_demo tokens)
      → token.user_id ≡ user_id
      → IsIn token recent
  unfolding recent sorted kept
  mine_recent token i mine = ((maintain_user_sessions_lem token i).1 mine).1

  -- A valid session of the user that is gone is one beyond the limit.
  retired :
      ((a b : RefreshToken) → IsIn a tokens → IsIn b tokens → a.id ≡ b.id → a ≡ b)
      → (token : RefreshToken) → IsIn token tokens
      → token.user_id ≡ user_id
      → now < token.expires_at
      → ¬ (IsIn token (maintain_user_sessions config user_id now is_demo tokens))
      → IsIn token (drop (max_active config is_demo) sorted)
  unfolding sorted kept unexpired excess
  retired keyed token i mine live gone =
      let unaffected = λ (t : RefreshToken). not ((t.user_id == user_id) && leb t.expires_at now) in
      let j : IsIn token kept = select-IsIn unaffected token tokens i (ground arith) in
      let dropped = drop (max_active config is_demo) (active_sessions user_id now kept) in
      elim (Bool-cases (elem token.id excess)) [
        | inr e ↦ absurd (gone (stays token j e))
        | inl e ↦
            (let (t, m, q) =
                IsIn-map (λ (t : RefreshToken). t.id) token.id dropped
                  (elem→IsIn token.id excess e) in
              let l =
                (IsIn-select (is_active_of user_id now) t kept (
                  IsIn-order_by more_recent t (select (is_active_of user_id now) kept) (
                    drop-IsIn (max_active config is_demo) t (active_sessions user_id now kept)
                      m))).0 in
              let same = keyed t token (IsIn-select unaffected t tokens l).0 i q in
              subst (λ z. IsIn z dropped) same m)
      ]

  -- With distinct ids, the sessions of other users are all left as they were.
  pub maintain_keeps_others :
      ((a b : RefreshToken) → IsIn a tokens → IsIn b tokens → a.id ≡ b.id → a ≡ b)
      → (token : RefreshToken) → IsIn token tokens
      → token.user_id ≢ user_id
      → IsIn token (maintain_user_sessions config user_id now is_demo tokens)
  unfolding unexpired excess kept
  maintain_keeps_others keyed token i other =
      let unaffected = λ (t : RefreshToken). not ((t.user_id == user_id) && leb t.expires_at now) in
      let j : IsIn token kept = select-IsIn unaffected token tokens i (ground arith) in
      stays token j (elim (Bool-cases (elem token.id excess)) [
        | inr e ↦ e
        | inl e ↦
            (let dropped = drop (max_active config is_demo) (active_sessions user_id now kept) in
              let (t, m, q) =
                IsIn-map (λ (t : RefreshToken). t.id) token.id dropped
                  (elem→IsIn token.id excess e) in
              let sorted =
                drop-IsIn (max_active config is_demo) t (active_sessions user_id now kept) m in
              let (l, mine) =
                IsIn-select (is_active_of user_id now) t kept
                  (IsIn-order_by more_recent t (select (is_active_of user_id now) kept) sorted) in
              let same = keyed t token (IsIn-select unaffected t tokens l).0 i q in
              absurd (other (ap (λ (z : RefreshToken). z.user_id) (sym same) ∙ ground arith)))
      ])

  -- A valid session of the user is retired only when the user has more of them than the limit.
  retired-max :
      ((a b : RefreshToken) → IsIn a tokens → IsIn b tokens → a.id ≡ b.id → a ≡ b)
      → (token : RefreshToken) → IsIn token tokens
      → token.user_id ≡ user_id
      → now < token.expires_at
      → ¬ (IsIn token (maintain_user_sessions config user_id now is_demo tokens))
      → limit_of config is_demo < length (select (is_active_of user_id now) tokens)
  unfolding sorted kept unexpired
  retired-max keyed token i mine live gone =
      let unaffected = λ (t : RefreshToken). not ((t.user_id == user_id) && leb t.expires_at now) in
      let active = is_active_of user_id now in
      let long =
        drop-length (max_active config is_demo) token sorted
          (retired keyed token i mine live gone) in
      let same =
        length-order_by more_recent (select active kept)
        ∙ ap length (select-select active unaffected tokens (λ t h. ground arith)) in
      subst (λ n. max_active config is_demo < n) same long

  -- With distinct ids, after the retirement: every session that is left was there, and those of the
  -- user have not expired and all stand in one list that is no longer than the limit (200 for a
  -- demo user, else the setting, and at least 1); the sessions of other users are left; a session
  -- of the user that is gone without having expired was used no later than any that is left, and
  -- goes only when the user had more unexpired sessions than the limit.
  pub maintain_keeps_recent :
      ((a b : RefreshToken) → IsIn a tokens → IsIn b tokens → a.id ≡ b.id → a ≡ b)
      → let after = maintain_user_sessions config user_id now is_demo tokens in
        ((token : RefreshToken)
          → IsIn token after
          → IsIn token tokens × (token.user_id ≡ user_id → now < token.expires_at))
        × ((few : List RefreshToken) × (length few ≤ limit_of config is_demo)
            × ((token : RefreshToken)
                → IsIn token after
                → token.user_id ≡ user_id
                → IsIn token few))
        × ((token : RefreshToken) → IsIn token tokens → token.user_id ≢ user_id → IsIn token after)
        × ((gone : RefreshToken)
            → IsIn gone tokens
            → gone.user_id ≡ user_id
            → now < gone.expires_at
            → ¬ (IsIn gone after)
            → limit_of config is_demo
              < length (select (λ t. (t.user_id == user_id) && ltb now t.expires_at) tokens))
        × ((left gone : RefreshToken)
            → IsIn left after
            → left.user_id ≡ user_id
            → IsIn gone tokens
            → gone.user_id ≡ user_id
            → now < gone.expires_at
            → ¬ (IsIn gone after)
            → ¬ (IsUsedLater gone left))
  unfolding recent sorted
  maintain_keeps_recent keyed = (
    λ token i. let (j, h) = maintain_user_sessions_lem token i in (j, λ mine. (h mine).0),
    (recent, length-take (max_active config is_demo) sorted, mine_recent),
    maintain_keeps_others keyed,
    retired-max keyed,
    λ left gone i mine j his live lost. more_recent_not_later left gone (
        take-le-drop more_recent (max_active config is_demo) left gone sorted
          (order_by-IsSorted more_recent more_recent-IsOrder
            (select (is_active_of user_id now) kept))
          (mine_recent left i mine) (retired keyed gone j his live lost)),
  )
