-- ===== src/Yclients/Paging/Rounds.antt =====
-- yclients_api.py: one round of the page loop after the other, and what no round changes.
use yclients_project.Prelude.{
  ℕ, zero, suc, ◌+◌, ◌≡◌, ◌⊎◌, refl, ◌∙◌, Option, none, some, List, [], arith, inl, inr,
}
use yclients_project.Yclients.Paging.{
  Item, Params, Server, Api, Fetched, Round, ends, goes_on, max_plain_pages, allowed_requests,
  spend_split_budget, page_round, pages, get_all_pages,
}

pub Round-cases :
    (r : Round)
    → ((result : Fetched (List Item)) × (r ≡ ends result))
      ⊎ ((rows : List Item) × (noted : Option (List ℕ)) × (r ≡ goes_on rows noted))
Round-cases (ends result) = inl (result, refl)
Round-cases (goes_on rows noted) = inr (rows, noted, refl)

-- The fields that a page loop leaves alone.
pub record SameWindow (after before : Api) : Type 0 where
  pub seen : after.split_seen ≡ before.split_seen
  pub complete : after.last_dated_fetch_complete ≡ before.last_dated_fetch_complete

module _ (server : Server) (limit : Option ℕ) (params : Params) where
  pub pages_round :
      (fuel page : ℕ) (all rows : List Item) (seen noted : Option (List ℕ)) (api : Api)
      → (page_round server limit params page all seen api).1 ≡ goes_on rows noted
      → pages server (suc fuel) limit params page all seen api
        ≡ pages server fuel limit params
            (page + 1)
            rows
            noted
            (page_round server limit params page all seen api).0
  unfolding pages
  pages_round fuel page all rows seen noted api h = ground arith

  pub pages_ends :
      (fuel page : ℕ) (all : List Item) (seen : Option (List ℕ)) (result : Fetched (List Item))
      (api : Api)
      → (page_round server limit params page all seen api).1 ≡ ends result
      → pages server (suc fuel) limit params page all seen api
        ≡ ((page_round server limit params page all seen api).0, result)
  unfolding pages
  pages_ends fuel page all seen result api h = ground arith

  pub get_all_pages_dated_eq :
      (ids : List ℕ) (api : Api)
      → api.split_seen ≡ some ids
      → get_all_pages server limit params api
        ≡ pages server (allowed_requests ids + 1) limit params 1 [] none api
  unfolding get_all_pages
  get_all_pages_dated_eq ids api e = ground arith

  pub get_all_pages_plain_eq :
      (api : Api)
      → api.split_seen ≡ none
      → get_all_pages server limit params api
        ≡ pages server (max_plain_pages + 1) limit params 1 [] (some []) api
  unfolding get_all_pages
  get_all_pages_plain_eq api e = ground arith

  page_round-SameWindow :
      (page : ℕ) (all : List Item) (seen : Option (List ℕ)) (api : Api)
      → SameWindow (page_round server limit params page all seen api).0 api
  unfolding page_round spend_split_budget
  page_round-SameWindow page all seen api = record { seen = ground arith; complete = ground arith }

  pages-SameWindow :
      (fuel page : ℕ) (all : List Item) (seen : Option (List ℕ)) (api : Api)
      → SameWindow (pages server fuel limit params page all seen api).0 api
  unfolding pages
  pages-SameWindow zero page all seen api = record { seen = refl; complete = refl }
  pages-SameWindow (suc fuel) page all seen api =
      let after = (page_round server limit params page all seen api).0 in
      let here = page_round-SameWindow page all seen api in
      elim (Round-cases (page_round server limit params page all seen api).1) [
        | inl (result, f) ↦ rw (pages_ends fuel page all seen result api f) here
        | inr (rows, noted, f) ↦
            (let rest = pages-SameWindow fuel (page + 1) rows noted after in
              rw (pages_round fuel page all rows seen noted api f)
                (record { seen = rest.seen ∙ here.seen; complete = rest.complete ∙ here.complete }))
      ]

  pub get_all_pages-SameWindow :
      (api : Api) → SameWindow (get_all_pages server limit params api).0 api
  unfolding get_all_pages
  get_all_pages-SameWindow api = pages-SameWindow _ 1 [] _ api
