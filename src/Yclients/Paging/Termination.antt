-- ===== src/Yclients/Paging/Termination.antt =====
-- yclients_api.py: the loops end, whatever the server answers.
use yclients_project.Prelude.{
  ℕ, zero, suc, ◌+◌, ◌-◌, ◌≤◌, ◌<◌, ◌≡◌, ◌≢◌, refl, sym, ap, ◌∙◌, Option, none, some, List, [],
  arith, inl, inr, Option-cases,
}
use yclients_project.Prelude.Text.{Text}
use yclients_project.Sync.Parsing.{DateTimeText}
use yclients_project.Yclients.Paging.{
  Item, Response, Params, Server, Api, Fetched, stuck, ends, goes_on, max_plain_pages,
  allowed_requests, spend_split_budget, take_page, read_rows, read_answer, page_round, pages,
  get_all_pages, fetch_whole_day, fetch_single_page_ranges, fetch_window, get_all_pages_dated,
  middle,
}
use yclients_project.Yclients.Paging.Rounds.{
  Round-cases, pages_round, pages_ends, get_all_pages_dated_eq, get_all_pages_plain_eq,
}

module _ (limit : Option ℕ) (page : ℕ) (all : List Item) where
  read_answer-ends :
      (seen : Option (List ℕ)) (r : Response) → read_answer limit page all seen r ≢ ends stuck
  unfolding read_answer read_rows take_page
  read_answer-ends seen r h = ground arith

  read_answer_noted :
      (seen : List ℕ) (r : Response) (rows : List Item) (noted : Option (List ℕ))
      → read_answer limit page all (some seen) r ≡ goes_on rows noted
      → (after : List ℕ) × (noted ≡ some after)
  unfolding read_answer read_rows take_page
  read_answer_noted seen r rows noted h = elim (Option-cases noted) [
    | inr found ↦ found
    | inl e ↦ ground arith
  ]

module _ (server : Server) (limit : Option ℕ) (params : Params) (page : ℕ) (all : List Item) where
  round_ends :
      (seen : Option (List ℕ)) (api : Api)
      → (page_round server limit params page all seen api).1 ≢ ends stuck
  unfolding page_round
  round_ends seen api h = grind (arith, read_answer-ends)

  -- A round that goes on has stayed inside the budget of the window.
  round_dated :
      (seen noted : Option (List ℕ)) (ids : List ℕ) (rows : List Item) (api : Api)
      → api.split_seen ≡ some ids
      → (page_round server limit params page all seen api).1 ≡ goes_on rows noted
      → let after = (page_round server limit params page all seen api).0 in
        (after.split_seen ≡ some ids)
        × (after.split_requests ≡ api.split_requests + 1)
        × after.split_requests ≤ allowed_requests ids
  unfolding page_round spend_split_budget
  round_dated seen noted ids rows api e h = (ground arith, ground arith, ground arith)

  round_plain :
      (seen : List ℕ) (noted : Option (List ℕ)) (rows : List Item) (api : Api)
      → api.split_seen ≡ none
      → (page_round server limit params page all (some seen) api).1 ≡ goes_on rows noted
      → ((page_round server limit params page all (some seen) api).0.split_seen ≡ none)
        × page ≤ max_plain_pages
        × ((after : List ℕ) × (noted ≡ some after))
  unfolding page_round spend_split_budget
  round_plain seen noted rows api e h = (
    ground arith,
    ground arith,
    elim (Option-cases noted) [ inr found ↦ found | inl f ↦ grind (arith, read_answer_noted) ],
  )

module _ (server : Server) (limit : Option ℕ) (params : Params) where
  ended :
      (fuel page : ℕ) (all : List Item) (seen : Option (List ℕ)) (result : Fetched (List Item))
      (api : Api)
      → (page_round server limit params page all seen api).1 ≡ ends result
      → (pages server (suc fuel) limit params page all seen api).1 ≢ stuck
  ended fuel page all seen result api f q = round_ends server limit params page all seen api (
      f
      ∙ ap ends (
          ap (λ (r : Api × Fetched (List Item)). r.1)
            (sym (pages_ends server limit params fuel page all seen result api f))
          ∙ q))

  pages_dated :
      (fuel page : ℕ) (all : List Item) (seen : Option (List ℕ)) (ids : List ℕ) (api : Api)
      → api.split_seen ≡ some ids
      → allowed_requests ids < fuel + api.split_requests
      → (fuel ≡ 0 → api.split_requests ≤ allowed_requests ids)
      → (pages server fuel limit params page all seen api).1 ≢ stuck
  pages_dated zero page all seen ids api e h k = absurd (omega (arith, k refl))
  pages_dated (suc fuel) page all seen ids api e h k =
      elim (Round-cases (page_round server limit params page all seen api).1) [
        | inl (result, f) ↦ ended fuel page all seen result api f
        | inr (rows, noted, f) ↦
            (let after = (page_round server limit params page all seen api).0 in
              let (same, spent, within) =
                round_dated server limit params page all seen noted ids rows api e f in
              rw (pages_round server limit params fuel page all rows seen noted api f)
                (pages_dated fuel (page + 1) rows noted ids after same (omega arith) (λ _. within)))
      ]

  pages_plain :
      (fuel page : ℕ) (all : List Item) (seen : List ℕ) (api : Api)
      → api.split_seen ≡ none
      → max_plain_pages + 1 < fuel + page
      → (fuel ≡ 0 → page ≤ max_plain_pages + 1)
      → (pages server fuel limit params page all (some seen) api).1 ≢ stuck
  pages_plain zero page all seen api e h k = absurd (omega (arith, k refl))
  pages_plain (suc fuel) page all seen api e h k =
      elim (Round-cases (page_round server limit params page all (some seen) api).1) [
        | inl (result, f) ↦ ended fuel page all (some seen) result api f
        | inr (rows, noted, f) ↦
            (let after = (page_round server limit params page all (some seen) api).0 in
              let (same, within, (ids, q)) =
                round_plain server limit params page all seen noted rows api e f in
              rw (pages_round server limit params fuel page all rows (some seen) noted api f, q)
                (pages_plain fuel (page + 1) rows ids after same (omega arith) (λ _. omega arith)))
      ]

  get_all_pages_ends : (api : Api) → (get_all_pages server limit params api).1 ≢ stuck
  get_all_pages_ends api = elim (Option-cases api.split_seen) [
    | inl e ↦
        (rw (get_all_pages_plain_eq server limit params api e)
          (pages_plain (max_plain_pages + 1) 1 [] [] api e (omega arith) (λ z. omega arith)))
    | inr (ids, e) ↦
        (rw (get_all_pages_dated_eq server limit params ids api e) (
          pages_dated (allowed_requests ids + 1) 1 [] none ids api e (omega arith)
            (λ z. omega arith)))
  ]

module _ (server : Server) (py : DateTimeText) where
  fetch_whole_day_ends :
      (start end : ℕ) (api : Api) → (fetch_whole_day server py start end api).1 ≢ stuck
  unfolding fetch_whole_day
  fetch_whole_day_ends start end api h = grind (arith, get_all_pages_ends)

  fetch_single_page_ranges_ends :
      (fuel start end : ℕ) (api : Api)
      → end - start < fuel
      → (fetch_single_page_ranges server py fuel start end api).1 ≢ stuck
  unfolding fetch_single_page_ranges
  fetch_single_page_ranges_ends zero start end api h q = absurd (omega arith)
  fetch_single_page_ranges_ends (suc fuel) start end api h q = grind (
    arith,
    get_all_pages_ends,
    fetch_whole_day_ends,
    fetch_single_page_ranges_ends fuel start (middle server py start end),
    fetch_single_page_ranges_ends fuel (middle server py start end + 1) end,
  )

  -- A listing ends with rows or with an exception, whatever the server answers, and however many
  -- pages it pretends to have: no fuel that the model gives runs out.
  pub get_all_pages_dated_ends :
      (start_date end_date : Option Text) (api : Api)
      → (get_all_pages_dated server py start_date end_date api).1 ≢ stuck
  unfolding get_all_pages_dated fetch_window
  get_all_pages_dated_ends start_date end_date api h =
      grind (arith, get_all_pages_ends, fetch_single_page_ranges_ends)
