-- ===== src/Yclients/Paging/Listed.antt =====
-- yclients_api.py: which rows `_keep_new_rows` drops, and when a fetch reports itself complete.
use yclients_project.Prelude.{
  ℕ, zero, suc, ◌+◌, ◌≤◌, ◌≡◌, ◌⊎◌, sym, ap, subst, ◌∙◌, true, none, some, List, [], ◌∷◌, ◌++◌,
  arith, inl, inr, length, Bool-cases, Option-cases, IsIn, append-IsIn_left, append-IsIn_right,
  elem, elem→IsIn,
}
use yclients_project.Sync.Parsing.{DateTimeText}
use yclients_project.Yclients.Paging.{
  Item, Server, Api, Fetched, got, fresh_rows, keep_new_rows, kept, note_day, fetch_whole_day,
  fetch_single_page_ranges, window, middle, max_per_page,
}
use yclients_project.Yclients.Paging.Rounds.{get_all_pages-SameWindow}
use yclients_project.Yclients.Paging.Pieces.{
  one_page, one_day, halves, day, probe, left_half, whole_day_got, ranges_got,
}
use yclients_project.Yclients.Paging.Distinct.{
  ids_of, ids_of-append, IsPiece, fresh_rows_bare, fresh_rows_known, fresh_rows_new,
  keep_new_rows_rows, got_inj,
}

-- The item is among the rows, or its id was seen before, or it is the id of one of them.
abbrev pub IsListed : Item → List ℕ → List Item → Type 0
IsListed x seen items =
    IsIn x items ⊎ ((i : ℕ) × (x.id ≡ some i) × (IsIn i seen ⊎ IsIn i (ids_of items)))

module _ (x : Item) (seen : List ℕ) where
  pub IsListed-left : (xs ys : List Item) → IsListed x seen xs → IsListed x seen (xs ++ ys)
  IsListed-left xs ys (inl i) = inl (append-IsIn_left x xs ys i)
  IsListed-left xs ys (inr (i, e, inl s)) = inr (i, e, inl s)
  IsListed-left xs ys (inr (i, e, inr j)) = inr (
    i,
    e,
    inr (
        subst (λ z. IsIn i z) (sym (ids_of-append xs ys))
          (append-IsIn_left i (ids_of xs) (ids_of ys) j)),
  )

  -- Behind the piece `xs`, which leaves the ids `mid` seen.
  pub IsListed-right :
      (mid : List ℕ) (xs ys : List Item)
      → IsPiece seen xs mid
      → IsListed x mid ys
      → IsListed x seen (xs ++ ys)
  IsListed-right mid xs ys p (inl i) = inl (append-IsIn_right x xs ys i)
  IsListed-right mid xs ys p (inr (i, e, inr j)) = inr (
    i,
    e,
    inr (
        subst (λ z. IsIn i z) (sym (ids_of-append xs ys))
          (append-IsIn_right i (ids_of xs) (ids_of ys) j)),
  )
  IsListed-right mid xs ys p (inr (i, e, inl m)) = elim (p.sound i m) [
    | inl s ↦ inr (i, e, inl s)
    | inr j ↦ inr (
      i,
      e,
      inr (
          subst (λ z. IsIn i z) (sym (ids_of-append xs ys))
            (append-IsIn_left i (ids_of xs) (ids_of ys) j)),
    )
  ]

ids_of-tail :
    (i : ℕ) (item : Item) (items : List Item)
    → IsIn i (ids_of items)
    → IsIn i (ids_of (item ∷ items))
ids_of-tail i item items j = elim (Option-cases item.id) [
  | inl e ↦ rw e j
  | inr (n, e) ↦ rw e (inr j)
]

IsListed-tail :
    (x item : Item) (seen : List ℕ) (items : List Item)
    → IsListed x seen items
    → IsListed x seen (item ∷ items)
IsListed-tail x item seen items (inl i) = inl (inr i)
IsListed-tail x item seen items (inr (i, e, inl s)) = inr (i, e, inl s)
IsListed-tail x item seen items (inr (i, e, inr j)) = inr (i, e, inr (ids_of-tail i item items j))

IsListed-head :
    (n : ℕ) (x item : Item) (seen : List ℕ) (items : List Item)
    → item.id ≡ some n
    → IsListed x (n ∷ seen) items
    → IsListed x seen (item ∷ items)
IsListed-head n x item seen items e (inl i) = inl (inr i)
IsListed-head n x item seen items e (inr (i, f, inl (inl q))) = inr (i, f, inr (rw e (inl q)))
IsListed-head n x item seen items e (inr (i, f, inl (inr s))) = inr (i, f, inl s)
IsListed-head n x item seen items e (inr (i, f, inr j)) =
    inr (i, f, inr (ids_of-tail i item items j))

-- A row that `_keep_new_rows` drops has an id that was seen.
fresh_rows-IsListed :
    (x : Item) (seen : List ℕ) (items : List Item)
    → IsIn x items
    → IsListed x seen (fresh_rows seen items).0
fresh_rows-IsListed x seen [] i = absurd i
fresh_rows-IsListed x seen (item ∷ items) i = elim (Option-cases item.id) [
  | inl e ↦
      (subst (λ (r : List Item × List ℕ). IsListed x seen r.0)
        (sym (fresh_rows_bare seen item items e))
        (elim i [
          | inl q ↦ inl (inl q)
          | inr j ↦
              IsListed-tail x item seen (fresh_rows seen items).0
                (fresh_rows-IsListed x seen items j)
        ]))
  | inr (n, e) ↦ elim (Bool-cases (elem n seen)) [
    | inl f ↦
        (subst (λ (r : List Item × List ℕ). IsListed x seen r.0)
          (sym (fresh_rows_known seen item items n e f))
          (elim i [
            | inl q ↦ inr (n, ap (λ (z : Item). z.id) (sym q) ∙ e, inl (elem→IsIn n seen f))
            | inr j ↦ fresh_rows-IsListed x seen items j
          ]))
    | inr f ↦
        (subst (λ (r : List Item × List ℕ). IsListed x seen r.0)
          (sym (fresh_rows_new seen item items n e f))
          (elim i [
            | inl q ↦ inl (inl q)
            | inr j ↦
                IsListed-head n x item seen (fresh_rows (n ∷ seen) items).0 e
                  (fresh_rows-IsListed x (n ∷ seen) items j)
          ]))
  ]
]

note_day_complete :
    (rows : List Item) (api : Api)
    → (note_day rows api).last_dated_fetch_complete ≡ true
    → (api.last_dated_fetch_complete ≡ true) × (length rows ≤ max_per_page)
unfolding note_day
note_day_complete rows api h = (ground arith, ground arith)

keep_complete :
    (rows : List Item) (api : Api)
    → (keep_new_rows rows api).0.last_dated_fetch_complete ≡ api.last_dated_fetch_complete
unfolding keep_new_rows
keep_complete rows api = ground arith

pub keep-IsListed :
    (rows items : List Item) (seen : List ℕ) (api : Api) (result : Api × Fetched (List Item))
    (x : Item)
    → api.split_seen ≡ some seen
    → result ≡ kept (keep_new_rows rows api)
    → result.1 ≡ got items
    → IsIn x rows
    → IsListed x seen items
keep-IsListed rows items seen api result x e q h i =
    let rows_are : (fresh_rows seen rows).0 ≡ items =
      sym (keep_new_rows_rows rows seen api e)
      ∙ got_inj (ap (λ (r : Api × Fetched (List Item)). r.1) (sym q) ∙ h) in
    subst (λ z. IsListed x seen z) rows_are (fresh_rows-IsListed x seen rows i)

module _ (server : Server) (py : DateTimeText) where
  pub whole_day_complete :
      (start end : ℕ) (items : List Item) (api : Api)
      → (fetch_whole_day server py start end api).1 ≡ got items
      → (fetch_whole_day server py start end api).0.last_dated_fetch_complete ≡ true
      → (api.last_dated_fetch_complete ≡ true)
        × ((rows : List Item) × ((day server py start end api).1 ≡ got rows)
            × (length rows ≤ max_per_page)
            × (fetch_whole_day server py start end api
                ≡ kept (keep_new_rows rows (note_day rows (day server py start end api).0))))
  whole_day_complete start end items api h flag =
      let (rows, f, q) = whole_day_got server py start end api items h in
      let noted = note_day rows (day server py start end api).0 in
      let (before, few) = note_day_complete rows (day server py start end api).0 (
        sym (keep_complete rows noted)
        ∙ ap (λ (r : Api × Fetched (List Item)). r.0.last_dated_fetch_complete) (sym q)
        ∙ flag) in
      (
        sym (get_all_pages-SameWindow server none (window server py start end) api).complete
            ∙ before,
        (rows, f, few, q),
      )

  -- A fetch that is complete in the end was complete all along.
  pub ranges_complete :
      (fuel start end : ℕ) (items : List Item) (api : Api)
      → (fetch_single_page_ranges server py fuel start end api).1 ≡ got items
      → (fetch_single_page_ranges server py fuel start end api).0.last_dated_fetch_complete ≡ true
      → api.last_dated_fetch_complete ≡ true
  unfolding fetch_single_page_ranges
  ranges_complete zero start end items api h flag = cc
  ranges_complete (suc fuel) start end items api h flag =
      let (first_page, f, way) = ranges_got server py start end api fuel items h in
      let same =
        (get_all_pages-SameWindow server (some 1) (window server py start end) api).complete in
      elim way [
        | one_page few q ↦
            (sym same
              ∙ sym (keep_complete first_page (probe server py start end api).0)
              ∙ ap (λ (r : Api × Fetched (List Item)). r.0.last_dated_fetch_complete) (sym q)
              ∙ flag)
        | one_day last q ↦
            (sym same
              ∙ (whole_day_complete start end items (probe server py start end api).0
                  (ap (λ (r : Api × Fetched (List Item)). r.1) (sym q) ∙ h)
                  (ap (λ (r : Api × Fetched (List Item)). r.0.last_dated_fetch_complete) (sym q)
                    ∙ flag)).0)
        | halves left right more l r q ↦
            (sym same
              ∙ ranges_complete fuel start (middle server py start end) left
                  (probe server py start end api).0 l
                  (ranges_complete fuel (middle server py start end + 1) end right
                    (left_half server py start end api fuel).0 r
                    (ap (λ (z : Api × Fetched (List Item)). z.0.last_dated_fetch_complete) (sym q)
                      ∙ flag)))
      ]
