-- ===== src/Yclients/Paging/Distinct.antt =====
-- yclients_api.py: `_keep_new_rows` over the pieces of a window.
use yclients_project.Prelude.{
  ℕ, zero, suc, ◌+◌, ◌-◌, ◌≡◌, ◌⊎◌, refl, sym, ap, subst, ◌∙◌, true, false, none, some, List, [],
  ◌∷◌, ◌++◌, arith, inl, inr, Bool-cases, Option-cases, IsIn, IsIn-append, append-IsIn_left,
  append-IsIn_right, elem, elem_not,
}
use yclients_project.Sync.Parsing.{DateTimeText}
use yclients_project.Yclients.Paging.{
  Item, add_fresh, Server, Api, Fetched, got, fresh_rows, keep_new_rows, kept, note_day,
  fetch_whole_day, fetch_single_page_ranges, fetch_window, window, middle, opened,
}
use yclients_project.Yclients.Paging.Pieces.{
  one_page, one_day, halves, day, probe, left_half, whole_day_got, ranges_got,
}
use yclients_project.Yclients.Paging.Rounds.{get_all_pages-SameWindow}

-- The ids of the items that have one, in order.
abbrev pub ids_of : List Item → List ℕ
ids_of [] = []
ids_of (item ∷ items) = elim item.id [ none ↦ ids_of items | some i ↦ i ∷ ids_of items ]

abbrev pub NoRepeat : List ℕ → Type 0
NoRepeat [] = Unit
NoRepeat (x ∷ xs) = ¬ (IsIn x xs) × NoRepeat xs

NoRepeat-append :
    (xs ys : List ℕ)
    → NoRepeat xs
    → NoRepeat ys
    → ((a : ℕ) → IsIn a ys → ¬ (IsIn a xs))
    → NoRepeat (xs ++ ys)
NoRepeat-append [] ys h k apart = k
NoRepeat-append (x ∷ xs) ys h k apart = (
  λ i. elim (IsIn-append x xs ys i) [ inl j ↦ h.0 j | inr j ↦ apart x j (inl refl) ],
  NoRepeat-append xs ys h.1 k (λ a i j. apart a i (inr j)),
)

pub ids_of-append : (xs ys : List Item) → ids_of (xs ++ ys) ≡ ids_of xs ++ ids_of ys
ids_of-append [] ys = refl
ids_of-append (x ∷ xs) ys = elim (Option-cases x.id) [
  | inl e ↦ rw e (ids_of-append xs ys)
  | inr (i, e) ↦ rw e (ap (λ z. i ∷ z) (ids_of-append xs ys))
]

-- The rows that a piece adds to what was seen before: new ids, each of them once.
pub record IsPiece (seen : List ℕ) (items : List Item) (noted : List ℕ) : Type 0 where
  pub once : NoRepeat (ids_of items)
  pub new : (a : ℕ) → IsIn a (ids_of items) → ¬ (IsIn a seen)
  pub sound : (a : ℕ) → IsIn a noted → IsIn a seen ⊎ IsIn a (ids_of items)
  pub complete : (a : ℕ) → IsIn a seen ⊎ IsIn a (ids_of items) → IsIn a noted

IsPiece-append :
    (seen mid noted : List ℕ) (xs ys : List Item)
    → IsPiece seen xs mid
    → IsPiece mid ys noted
    → IsPiece seen (xs ++ ys) noted
IsPiece-append seen mid noted xs ys p q =
    let split : (a : ℕ) → IsIn a (ids_of (xs ++ ys)) → IsIn a (ids_of xs) ⊎ IsIn a (ids_of ys) =
      λ a i.
        IsIn-append a (ids_of xs) (ids_of ys) (subst (λ z. IsIn a z) (ids_of-append xs ys) i) in
    let joined : (a : ℕ) → IsIn a (ids_of xs ++ ids_of ys) → IsIn a (ids_of (xs ++ ys)) =
      λ a i. subst (λ z. IsIn a z) (sym (ids_of-append xs ys)) i in
    record {
      once = subst NoRepeat (sym (ids_of-append xs ys)) (
          NoRepeat-append (ids_of xs) (ids_of ys) p.once q.once
            (λ a i j. q.new a i (p.complete a (inr j))));
      new = λ a i s. elim (split a i) [
        | inl j ↦ p.new a j s
        | inr j ↦ q.new a j (p.complete a (inl s))
      ];
      sound = λ a i. elim (q.sound a i) [
        | inr j ↦ inr (joined a (append-IsIn_right a (ids_of xs) (ids_of ys) j))
        | inl j ↦ elim (p.sound a j) [
          | inl k ↦ inl k
          | inr k ↦ inr (joined a (append-IsIn_left a (ids_of xs) (ids_of ys) k))
        ]
      ];
      complete = λ a i. elim i [
        | inl s ↦ q.complete a (inl (p.complete a (inl s)))
        | inr j ↦ elim (split a j) [
          | inl k ↦ q.complete a (inl (p.complete a (inr k)))
          | inr k ↦ q.complete a (inr k)
        ]
      ];
    }

module _ (seen : List ℕ) (item : Item) (items : List Item) where
  pub fresh_rows_bare :
      item.id ≡ none → fresh_rows seen (item ∷ items) ≡ add_fresh item (fresh_rows seen items)
  unfolding fresh_rows
  fresh_rows_bare e = ground arith

  pub fresh_rows_known :
      (i : ℕ)
      → item.id ≡ some i
      → elem i seen ≡ true
      → fresh_rows seen (item ∷ items) ≡ fresh_rows seen items
  unfolding fresh_rows
  fresh_rows_known i e f = ground arith

  pub fresh_rows_new :
      (i : ℕ)
      → item.id ≡ some i
      → elem i seen ≡ false
      → fresh_rows seen (item ∷ items) ≡ add_fresh item (fresh_rows (i ∷ seen) items)
  unfolding fresh_rows
  fresh_rows_new i e f = ground arith

  bare-IsPiece : item.id ≡ none → IsPiece seen (item ∷ []) seen
  bare-IsPiece e = rw e (record {
    once = tt;
    new = λ a i s. i;
    sound = λ a i. inl i;
    complete = λ a i. elim i [ inl s ↦ s | inr j ↦ absurd j ];
  })

  new-IsPiece :
      (i : ℕ) → item.id ≡ some i → elem i seen ≡ false → IsPiece seen (item ∷ []) (i ∷ seen)
  new-IsPiece i e f = rw e (record {
    once = (λ z. z, tt);
    new = λ a j s. elim j [
      | inl q ↦ elem_not i seen f (subst (λ z. IsIn z seen) (sym q) s)
      | inr j ↦ absurd j
    ];
    sound = λ a j. elim j [ inl q ↦ inr (inl q) | inr s ↦ inl s ];
    complete =
        λ a j. elim j [ inl s ↦ inr s | inr k ↦ elim k [ inl q ↦ inl q | inr z ↦ absurd z ] ];
  })

pub fresh_rows-IsPiece :
    (seen : List ℕ) (items : List Item)
    → IsPiece seen (fresh_rows seen items).0 (fresh_rows seen items).1
unfolding fresh_rows
fresh_rows-IsPiece seen [] = record {
  once = tt;
  new = λ a i s. i;
  sound = λ a i. inl i;
  complete = λ a i. elim i [ inl s ↦ s | inr j ↦ absurd j ];
}
fresh_rows-IsPiece seen (item ∷ items) = elim (Option-cases item.id) [
  | inl e ↦
      (subst (λ (r : List Item × List ℕ). IsPiece seen r.0 r.1)
        (sym (fresh_rows_bare seen item items e))
        (IsPiece-append seen seen (fresh_rows seen items).1 (item ∷ []) (fresh_rows seen items).0
          (bare-IsPiece seen item items e) (fresh_rows-IsPiece seen items)))
  | inr (i, e) ↦ elim (Bool-cases (elem i seen)) [
    | inl f ↦
        (subst (λ (r : List Item × List ℕ). IsPiece seen r.0 r.1)
          (sym (fresh_rows_known seen item items i e f)) (fresh_rows-IsPiece seen items))
    | inr f ↦
        (subst (λ (r : List Item × List ℕ). IsPiece seen r.0 r.1)
          (sym (fresh_rows_new seen item items i e f))
          (IsPiece-append seen (i ∷ seen) (fresh_rows (i ∷ seen) items).1 (item ∷ [])
            (fresh_rows (i ∷ seen) items).0 (new-IsPiece seen item items i e f)
            (fresh_rows-IsPiece (i ∷ seen) items)))
  ]
]

pub keep_new_rows_rows :
    (items : List Item) (seen : List ℕ) (api : Api)
    → api.split_seen ≡ some seen
    → (keep_new_rows items api).1 ≡ (fresh_rows seen items).0
unfolding keep_new_rows
keep_new_rows_rows items seen api e = ground arith

pub keep_new_rows-IsPiece :
    (items : List Item) (seen : List ℕ) (api : Api)
    → api.split_seen ≡ some seen
    → (noted : List ℕ) × ((keep_new_rows items api).0.split_seen ≡ some noted)
      × IsPiece seen (keep_new_rows items api).1 noted
      × ((keep_new_rows items api).0.last_dated_fetch_complete ≡ api.last_dated_fetch_complete)
unfolding keep_new_rows
keep_new_rows-IsPiece items seen api e = (
  (fresh_rows seen items).1,
  ground arith,
  rw (keep_new_rows_rows items seen api e) (fresh_rows-IsPiece seen items),
  ground arith,
)

-- What a piece of the window leaves: new rows, and the ids seen after it.
abbrev pub Adds : List ℕ → List Item → Api → Type 0
Adds seen items after =
    (noted : List ℕ) × (after.split_seen ≡ some noted) × IsPiece seen items noted

pub got_inj : {rows items : List Item} → got rows ≡ got items → rows ≡ items
got_inj h = cc h

pub note_day_seen : (rows : List Item) (api : Api) → (note_day rows api).split_seen ≡ api.split_seen
unfolding note_day
note_day_seen rows api = ground arith

keep-Adds :
    (rows items : List Item) (seen : List ℕ) (api : Api) (result : Api × Fetched (List Item))
    → api.split_seen ≡ some seen
    → result ≡ kept (keep_new_rows rows api)
    → result.1 ≡ got items
    → Adds seen items result.0
keep-Adds rows items seen api result e q h =
    let (noted, same, piece, flag) = keep_new_rows-IsPiece rows seen api e in
    let rows_are : (keep_new_rows rows api).1 ≡ items =
      got_inj (ap (λ (r : Api × Fetched (List Item)). r.1) (sym q) ∙ h) in
    (
      noted,
      ap (λ (r : Api × Fetched (List Item)). r.0.split_seen) q ∙ same,
      subst (λ z. IsPiece seen z noted) rows_are piece,
    )

module _ (server : Server) (py : DateTimeText) where
  whole_day-Adds :
      (start end : ℕ) (items : List Item) (seen : List ℕ) (api : Api)
      → api.split_seen ≡ some seen
      → (fetch_whole_day server py start end api).1 ≡ got items
      → Adds seen items (fetch_whole_day server py start end api).0
  whole_day-Adds start end items seen api e h =
      let (rows, f, q) = whole_day_got server py start end api items h in
      keep-Adds rows items seen (note_day rows (day server py start end api).0)
        (fetch_whole_day server py start end api)
        (note_day_seen rows (day server py start end api).0
          ∙ (get_all_pages-SameWindow server none (window server py start end) api).seen
          ∙ e)
        q h

  pub ranges-Adds :
      (fuel start end : ℕ) (items : List Item) (seen : List ℕ) (api : Api)
      → api.split_seen ≡ some seen
      → (fetch_single_page_ranges server py fuel start end api).1 ≡ got items
      → Adds seen items (fetch_single_page_ranges server py fuel start end api).0
  unfolding fetch_single_page_ranges
  ranges-Adds zero start end items seen api e h = cc
  ranges-Adds (suc fuel) start end items seen api e h =
      let (first_page, f, way) = ranges_got server py start end api fuel items h in
      let probed : (probe server py start end api).0.split_seen ≡ some seen =
        (get_all_pages-SameWindow server (some 1) (window server py start end) api).seen ∙ e in
      elim way [
        | one_page few q ↦
            (keep-Adds first_page items seen (probe server py start end api).0
              (fetch_single_page_ranges server py (suc fuel) start end api) probed q h)
        | one_day last q ↦
            (subst (λ (r : Api × Fetched (List Item)). Adds seen items r.0) (sym q)
              (whole_day-Adds start end items seen (probe server py start end api).0 probed
                (ap (λ (r : Api × Fetched (List Item)). r.1) (sym q) ∙ h)))
        | halves left right more l r q ↦
            (let (mid, s, p) =
                ranges-Adds fuel start (middle server py start end) left seen
                  (probe server py start end api).0 probed l in
              let (noted, t, p2) =
                ranges-Adds fuel (middle server py start end + 1) end right mid
                  (left_half server py start end api fuel).0 s r in
              let rows_are : left ++ right ≡ items =
                got_inj (ap (λ (z : Api × Fetched (List Item)). z.1) (sym q) ∙ h) in
              (
                noted,
                ap (λ (z : Api × Fetched (List Item)). z.0.split_seen) q ∙ t,
                subst (λ z. IsPiece seen z noted) rows_are
                    (IsPiece-append seen mid noted left right p p2),
              ))
      ]

  -- The rows of a dated listing never repeat an id, whatever the server answers.
  pub fetch_window-NoRepeat :
      (start end : ℕ) (items : List Item) (api : Api)
      → (fetch_window server py start end api).1 ≡ got items
      → NoRepeat (ids_of items)
  unfolding fetch_window
  fetch_window-NoRepeat start end items api h =
      let (noted, same, piece) =
        ranges-Adds (end - start + 1) start end items [] (opened server py api) refl h in
      piece.once
