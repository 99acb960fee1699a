-- ===== src/Yclients/Paging/Pieces.antt =====
-- yclients_api.py: the ways in which a piece of a window is fetched.
use yclients_project.Prelude.{
  ℕ, suc, ◌+◌, ◌≤◌, ◌<◌, ◌≡◌, ◌⊎◌, refl, none, some, List, ◌++◌, arith, inl, inr, length,
  Bool-cases, ltb, leb,
}
use yclients_project.Prelude.Text.{Text}
use yclients_project.Sync.Parsing.{DateTimeText}
use yclients_project.Yclients.Paging.{
  Item, Server, Api, Fetched, got, raises, stuck, get_all_pages, keep_new_rows, kept, note_day,
  fetch_whole_day, fetch_single_page_ranges, window, middle, max_per_page,
}

pub Fetched-cases :
    (r : Fetched (List Item))
    → ((rows : List Item) × (r ≡ got rows)) ⊎ (((error : Text) × (r ≡ raises error)) ⊎ (r ≡ stuck))
Fetched-cases (got rows) = inl (rows, refl)
Fetched-cases (raises error) = inr (inl (error, refl))
Fetched-cases stuck = inr (inr refl)

module _ (server : Server) (py : DateTimeText) (start end : ℕ) (api : Api) where
  abbrev pub day : Api × Fetched (List Item)
  day = get_all_pages server none (window server py start end) api

  -- A single day that gave rows: what its pages gave, less what was seen.
  pub whole_day_got :
      (items : List Item)
      → (fetch_whole_day server py start end api).1 ≡ got items
      → (rows : List Item) × (day.1 ≡ got rows)
        × (fetch_whole_day server py start end api
            ≡ kept (keep_new_rows rows (note_day rows day.0)))
  unfolding fetch_whole_day
  whole_day_got items h = elim (Fetched-cases day.1) [
    | inl (rows, e) ↦ (rows, e, ground arith)
    | inr (inl (error, e)) ↦ ground arith
    | inr (inr e) ↦ ground arith
  ]

  abbrev pub probe : Api × Fetched (List Item)
  probe = get_all_pages server (some 1) (window server py start end) api

  abbrev pub left_half : ℕ → Api × Fetched (List Item)
  left_half fuel =
      fetch_single_page_ranges server py fuel start (middle server py start end) probe.0

  abbrev pub right_half : ℕ → Api × Fetched (List Item)
  right_half fuel =
      fetch_single_page_ranges server py fuel (middle server py start end + 1) end
        (left_half fuel).0

  -- The three ways: one page, a single day, two halves.
  pub data Way (fuel : ℕ) (first_page : List Item) (result : Api × Fetched (List Item))
      : Type 0 where
    one_page :
        length first_page < max_per_page
        → result ≡ kept (keep_new_rows first_page probe.0)
        → Way fuel first_page result
    one_day :
        end ≤ start
        → result ≡ fetch_whole_day server py start end probe.0
        → Way fuel first_page result
    halves :
        (left right : List Item)
        → start < end
        → (left_half fuel).1 ≡ got left
        → (right_half fuel).1 ≡ got right
        → result ≡ ((right_half fuel).0, got (left ++ right))
        → Way fuel first_page result

  whole : ℕ → Api × Fetched (List Item)
  whole fuel = fetch_single_page_ranges server py (suc fuel) start end api

  probed :
      (fuel : ℕ) (items : List Item)
      → (whole fuel).1 ≡ got items
      → (first_page : List Item) × (probe.1 ≡ got first_page)
  unfolding fetch_single_page_ranges whole
  probed fuel items h = elim (Fetched-cases probe.1) [
    | inl found ↦ found
    | inr (inl (error, e)) ↦ ground arith
    | inr (inr e) ↦ ground arith
  ]

  Way-halves :
      (fuel : ℕ) (items first_page : List Item)
      → (whole fuel).1 ≡ got items
      → probe.1 ≡ got first_page
      → max_per_page ≤ length first_page
      → start < end
      → Way fuel first_page (whole fuel)
  unfolding fetch_single_page_ranges whole
  Way-halves fuel items first_page h e full more = elim (Fetched-cases (left_half fuel).1) [
    | inl (left, f) ↦ elim (Fetched-cases (right_half fuel).1) [
      | inl (right, g) ↦ halves left right more f g (ground arith)
      | inr (inl (error, g)) ↦ ground arith
      | inr (inr g) ↦ ground arith
    ]
    | inr (inl (error, f)) ↦ ground arith
    | inr (inr f) ↦ ground arith
  ]

  -- A piece that gave rows was fetched in one of the three ways.
  pub ranges_got :
      (fuel : ℕ) (items : List Item)
      → (fetch_single_page_ranges server py (suc fuel) start end api).1 ≡ got items
      → (first_page : List Item) × (probe.1 ≡ got first_page)
        × Way fuel first_page (fetch_single_page_ranges server py (suc fuel) start end api)
  unfolding fetch_single_page_ranges whole
  ranges_got fuel items h =
      let (first_page, e) = probed fuel items h in
      (
        first_page,
        e,
        elim (Bool-cases (ltb (length first_page) max_per_page)) [
          | inl f ↦ one_page (ground arith) (ground arith)
          | inr f ↦ elim (Bool-cases (leb end start)) [
            | inl g ↦ one_day (ground arith) (ground arith)
            | inr g ↦ Way-halves fuel items first_page h e (ground arith) (ground arith)
          ]
        ],
      )
