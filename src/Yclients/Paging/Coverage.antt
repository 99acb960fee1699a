-- ===== src/Yclients/Paging/Coverage.antt =====
-- yclients_api.py: the rows of the pieces of a window, joined, are all the rows of the window.
use yclients_project.Prelude.{
  ℕ, zero, suc, ◌+◌, ◌-◌, ◌≤◌, ◌<◌, ◌≡◌, ◌⊎◌, refl, sym, ap, subst, ◌∙◌, Bool, true, none, some,
  List, [], arith, inl, inr, length, Bool-cases, leb, leb_le, leb_gt, IsIn,
}
use yclients_project.Sync.Parsing.{DateTimeText}
use yclients_project.Yclients.Paging.{
  Item, Server, Api, Fetched, got, keep_new_rows, kept, note_day, fetch_whole_day,
  fetch_single_page_ranges, fetch_window, window, middle, opened, max_per_page,
}
use yclients_project.Yclients.Paging.Rounds.{get_all_pages-SameWindow}
use yclients_project.Yclients.Paging.Prefix.{IsPrefix-IsIn}
use yclients_project.Yclients.Paging.Pieces.{
  one_page, one_day, halves, day, probe, left_half, ranges_got,
}
use yclients_project.Yclients.Paging.Distinct.{ids_of, got_inj, note_day_seen, ranges-Adds}
use yclients_project.Yclients.Paging.Complete.{Honest, take_all, rows_here, probe_rows, day_rows}
use yclients_project.Yclients.Paging.Listed.{
  IsListed, IsListed-left, IsListed-right, keep-IsListed, whole_day_complete, ranges_complete,
}

abbrev result_of : Api × Fetched (List Item) → Fetched (List Item)
result_of r = r.1

abbrev flag_of : Api × Fetched (List Item) → Bool
flag_of r = r.0.last_dated_fetch_complete

module _ (server : Server) (py : DateTimeText) (table : List Item) (day_of : Item → ℕ)
    (honest : Honest server py table day_of) (x : Item) (here : IsIn x table) where
  one_page-IsListed :
      (start end : ℕ) (items first_page : List Item) (seen : List ℕ) (api : Api)
      (result : Api × Fetched (List Item))
      → start ≤ day_of x
      → day_of x ≤ end
      → api.split_seen ≡ some seen
      → (probe server py start end api).1 ≡ got first_page
      → length first_page < max_per_page
      → result ≡ kept (keep_new_rows first_page (probe server py start end api).0)
      → result.1 ≡ got items
      → IsListed x seen items
  one_page-IsListed start end items first_page seen api result from to e f few q h =
      let order = honest.order api.sent start end in
      let page = probe_rows server py table day_of honest start end first_page seen api e f in
      let whole : first_page ≡ order =
        page ∙ take_all max_per_page order (subst (λ z. length z < max_per_page) page few) in
      keep-IsListed first_page items seen (probe server py start end api).0 result x
        ((get_all_pages-SameWindow server (some 1) (window server py start end) api).seen ∙ e) q h
        (subst (λ z. IsIn x z) (sym whole) (honest.has_all api.sent start end x here from to))

  one_day-IsListed :
      (start end : ℕ) (items : List Item) (seen : List ℕ) (api : Api)
      → start ≤ day_of x
      → day_of x ≤ end
      → api.split_seen ≡ some seen
      → (fetch_whole_day server py start end api).1 ≡ got items
      → (fetch_whole_day server py start end api).0.last_dated_fetch_complete ≡ true
      → IsListed x seen items
  one_day-IsListed start end items seen api from to e h flag =
      let (before, (rows, f, few, q)) = whole_day_complete server py start end items api h flag in
      let prefix = day_rows server py table day_of honest start end rows api seen e f few in
      keep-IsListed rows items seen (note_day rows (day server py start end api).0)
        (fetch_whole_day server py start end api) x
        (note_day_seen rows (day server py start end api).0
          ∙ (get_all_pages-SameWindow server none (window server py start end) api).seen
          ∙ e)
        q h
        (IsPrefix-IsIn x (rows_here server py table day_of honest start end rows api) rows prefix
          (honest.has_all api.sent start end x here from to))

  ranges-IsListed :
      (fuel start end : ℕ) (items : List Item) (seen : List ℕ) (api : Api)
      → start ≤ day_of x
      → day_of x ≤ end
      → api.split_seen ≡ some seen
      → (fetch_single_page_ranges server py fuel start end api).1 ≡ got items
      → (fetch_single_page_ranges server py fuel start end api).0.last_dated_fetch_complete ≡ true
      → IsListed x seen items
  unfolding fetch_single_page_ranges
  ranges-IsListed zero start end items seen api from to e h flag = cc
  ranges-IsListed (suc fuel) start end items seen api from to e h flag =
      let (first_page, f, way) = ranges_got server py start end api fuel items h in
      let probed : (probe server py start end api).0.split_seen ≡ some seen =
        (get_all_pages-SameWindow server (some 1) (window server py start end) api).seen ∙ e in
      elim way [
        | one_page few q ↦
            (one_page-IsListed start end items first_page seen api
              (fetch_single_page_ranges server py (suc fuel) start end api) from to e f few q h)
        | one_day last q ↦
            (one_day-IsListed start end items seen (probe server py start end api).0 from to probed
              (ap result_of (sym q) ∙ h) (ap flag_of (sym q) ∙ flag))
        | halves left right more l r q ↦
            (let mid = middle server py start end in
              let (noted, s, p) =
                ranges-Adds server py fuel start mid left seen (probe server py start end api).0
                  probed l in
              let complete = ap flag_of (sym q) ∙ flag in
              let before =
                ranges_complete server py fuel (mid + 1) end right
                  (left_half server py start end api fuel).0 r complete in
              subst (λ z. IsListed x seen z) (got_inj (ap result_of (sym q) ∙ h))
                (elim (Bool-cases (leb (day_of x) mid)) [
                  | inl low ↦
                      (IsListed-left x seen left right (
                        ranges-IsListed fuel start mid left seen (probe server py start end api).0
                          from (leb_le (day_of x) mid low) probed l before))
                  | inr high ↦
                      (IsListed-right x seen noted left right p (
                        ranges-IsListed fuel (mid + 1) end right noted
                          (left_half server py start end api fuel).0
                          (omega (arith, leb_gt (day_of x) mid high)) to s r complete))
                ]))
      ]

  -- Where the server keeps to its documented behaviour and the fetch reports itself complete, each
  -- row of the window is in the result, or its id is the id of a row that is.
  pub fetch_window_complete :
      (start end : ℕ) (items : List Item) (api : Api)
      → start ≤ day_of x
      → day_of x ≤ end
      → (fetch_window server py start end api).1 ≡ got items
      → (fetch_window server py start end api).0.last_dated_fetch_complete ≡ true
      → IsIn x items ⊎ ((i : ℕ) × (x.id ≡ some i) × IsIn i (ids_of items))
  unfolding fetch_window
  fetch_window_complete start end items api from to h flag =
      elim (ranges-IsListed (end - start + 1) start end items [] (opened server py api) from to refl
        h flag) [
          | inl i ↦ inl i
          | inr (i, e, j) ↦ inr (i, e, elim j [ inl none_seen ↦ absurd none_seen | inr k ↦ k ])
        ]
