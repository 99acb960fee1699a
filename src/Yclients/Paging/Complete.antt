-- ===== src/Yclients/Paging/Complete.antt =====
-- yclients_api.py: which rows a dated listing returns when the server filters by date and pages by
-- offset over an order that may change between two requests.
use yclients_project.Prelude.{
  ℕ, zero, suc, ◌+◌, ◌-◌, ◌*◌, ◌≤◌, ◌<◌, ◌≡◌, ◌≢◌, refl, sym, ap, subst, ◌∙◌, false, Option, none,
  some, List, [], ◌∷◌, arith, inl, inr, length, take, drop, Bool-cases, leb, leb_le, leb_gt, IsIn,
}
use yclients_project.Sync.Parsing.{DateTimeText}
use yclients_project.Yclients.Paging.{
  Item, listed, Response, answered, Server, Api, Fetched, got, ends, goes_on, take_page, read_rows,
  read_answer, pages, allowed_requests, get_all_pages, window, max_per_page,
}
use yclients_project.Yclients.Paging.Rounds.{get_all_pages_dated_eq}
use yclients_project.Yclients.Paging.Prefix.{
  IsPrefix, IsPrefix-self, IsPrefix-length, longer, pages-IsPrefix, rows_of, reply, pages_from,
  nonempty_ends, answer_goes_on,
}

pub take_all : (n : ℕ) (xs : List Item) → length (take n xs) < n → take n xs ≡ xs
take_all zero xs h = absurd (omega arith)
take_all (suc n) [] h = refl
take_all (suc n) (x ∷ xs) h = ap (λ z. x ∷ z) (take_all n xs (omega arith))

take_short : (n : ℕ) (xs : List Item) → length xs ≤ n → take n xs ≡ xs
take_short zero [] h = refl
take_short zero (x ∷ xs) h = absurd (omega arith)
take_short (suc n) [] h = refl
take_short (suc n) (x ∷ xs) h = ap (λ z. x ∷ z) (take_short n xs (omega arith))

length-take : (n : ℕ) (xs : List Item) → n ≤ length xs → length (take n xs) ≡ n
length-take zero xs h = refl
length-take (suc n) [] h = omega arith
length-take (suc n) (x ∷ xs) h = ap suc (length-take n xs (omega arith))

-- Page `page` of an ordered list.
abbrev pub slice : ℕ → List Item → List Item
slice page xs = take max_per_page (drop ((page - 1) * max_per_page) xs)

length-drop : (n : ℕ) (xs : List Item) → n < length xs → 0 < length (drop n xs)
length-drop zero xs h = h
length-drop (suc n) [] h = absurd (omega arith)
length-drop (suc n) (x ∷ xs) h = length-drop n xs (omega arith)

take_some : (xs : List Item) → 0 < length xs → take max_per_page xs ≢ []
take_some [] h e = absurd (omega arith)
take_some (x ∷ xs) h e = cc e

slice_two : (xs : List Item) → max_per_page < length xs → slice 2 xs ≢ []
slice_two xs h e =
    let many = length-drop max_per_page xs h in take_some (drop max_per_page xs) many e

first_ends :
    (limit : Option ℕ) (items : List Item) (r : Response)
    → read_answer limit 1 [] none r ≡ ends (got items)
    → items ≡ rows_of r
unfolding read_answer read_rows take_page
first_ends limit items r h = ground arith

limit_one :
    (all found : List Item) (seen noted : Option (List ℕ)) (r : Response)
    → read_answer (some 1) 1 all seen r ≢ goes_on found noted
unfolding read_answer read_rows take_page
limit_one all found seen noted r h = ground arith

-- A full page of a longer listing is not the last one.
full_page :
    (items found : List Item) (total : Option ℕ)
    → length found ≡ max_per_page
    → ((n : ℕ) → total ≡ some n → max_per_page < n)
    → read_answer none 1 [] none (
        answered
          (record { is_failure = false; content = listed found; meta_total = total; count = none }))
      ≢ ends (got items)
unfolding read_answer read_rows take_page
full_page items [] total full longer h = absurd (omega arith)
full_page items (x ∷ found) none full longer h = ground arith
full_page items (x ∷ found) (some n) full longer h = ground (arith, longer n refl)

-- What YClients documents of a dated listing: for each request there is an order of the rows of the
-- window, and a page is a slice of it; the rows of the window, and so their number, stay the same.
-- A declared total is their number.
pub record Honest (server : Server) (py : DateTimeText) (table : List Item) (day_of : Item → ℕ)
    : Type 0 where
  pub order : ℕ → ℕ → ℕ → List Item
  pub total : ℕ → ℕ → Option ℕ
  pub serves :
      (n start end page : ℕ)
      → server n (window server py start end) page
        ≡ answered (record {
          is_failure = false;
          content = listed (slice page (order n start end));
          meta_total = total start end;
          count = none;
        })
  pub has_all :
      (n start end : ℕ) (x : Item)
      → IsIn x table
      → start ≤ day_of x
      → day_of x ≤ end
      → IsIn x (order n start end)
  pub same_length : (n m start end : ℕ) → length (order n start end) ≡ length (order m start end)
  pub total_right :
      (n start end count : ℕ) → total start end ≡ some count → length (order n start end) ≡ count

module _ (server : Server) (py : DateTimeText) (table : List Item) (day_of : Item → ℕ)
    (honest : Honest server py table day_of) where
  abbrev page_of : ℕ → ℕ → ℕ → ℕ → List Item
  page_of page n start end = slice page (honest.order n start end)

  replies :
      (limit : Option ℕ) (page start end : ℕ) (api : Api)
      → rows_of (reply server limit (window server py start end) page api)
        ≡ page_of page api.sent start end
  replies limit page start end api = ap rows_of (honest.serves api.sent start end page)

  -- The first page of a window.
  pub probe_rows :
      (start end : ℕ) (items : List Item) (ids : List ℕ) (api : Api)
      → api.split_seen ≡ some ids
      → (get_all_pages server (some 1) (window server py start end) api).1 ≡ got items
      → items ≡ page_of 1 api.sent start end
  probe_rows start end items ids api e h =
      let eq = get_all_pages_dated_eq server (some 1) (window server py start end) ids api e in
      let k = ap (λ (z : Api × Fetched (List Item)). z.1) (sym eq) ∙ h in
      elim (pages_from server (some 1) (window server py start end) (allowed_requests ids + 1) 1 []
        items none api k) [
          | inl f ↦
              (first_ends (some 1) items (reply server (some 1) (window server py start end) 1 api)
                  f
                ∙ replies (some 1) 1 start end api)
          | inr (found, noted, rest, after, f, g, l) ↦
              (absurd (
                limit_one [] found none noted
                  (reply server (some 1) (window server py start end) 1 api) f))
        ]

  module _ (start end : ℕ) (items : List Item) (api : Api) where
    abbrev pub rows_here : List Item
    rows_here = honest.order api.sent start end

    -- A loop that went on past a full first page of a longer listing returns more than one page.
    second_page :
        (rest : ℕ) (found : List Item) (noted : Option (List ℕ)) (after : Api)
        → max_per_page < length rows_here
        → length found ≡ max_per_page
        → after.sent ≡ api.sent + 1
        → (pages server rest none (window server py start end) 2 found noted after).1 ≡ got items
        → max_per_page < length items
    second_page rest found noted after long full sent h =
        let next = page_of 2 after.sent start end in
        let r = reply server none (window server py start end) 2 after in
        let some_rows : rows_of r ≢ [] = λ z.
          slice_two (honest.order after.sent start end)
            (omega (arith, honest.same_length after.sent api.sent start end))
            (sym (replies none 2 start end after) ∙ z) in
        elim (pages_from server none (window server py start end) rest 2 found items noted after
          h) [
            | inl f ↦
                (omega (
                  arith,
                  longer found (rows_of r) items some_rows
                      (nonempty_ends none 2 found items noted r some_rows f),
                ))
            | inr (found2, noted2, rest2, after2, f, g, l) ↦
                (omega (
                  arith,
                  longer found (rows_of r) found2 some_rows
                      (answer_goes_on none 2 found found2 noted r noted2 f),
                  IsPrefix-length found2 items (
                      pages-IsPrefix server none (window server py start end) rest2 3 found2 items
                        noted2 after2 l),
                ))
          ]

    pub day_rows :
        (ids : List ℕ)
        → api.split_seen ≡ some ids
        → (get_all_pages server none (window server py start end) api).1 ≡ got items
        → length items ≤ max_per_page
        → IsPrefix rows_here items
    day_rows ids e h few =
        let eq = get_all_pages_dated_eq server none (window server py start end) ids api e in
        let k = ap (λ (z : Api × Fetched (List Item)). z.1) (sym eq) ∙ h in
        let r = reply server none (window server py start end) 1 api in
        let first_page = replies none 1 start end api in
        elim (Bool-cases (leb (length rows_here) max_per_page)) [
          | inl short ↦
              (let whole : rows_of r ≡ rows_here =
                  first_page
                  ∙ take_short max_per_page rows_here
                      (leb_le (length rows_here) max_per_page short) in
                elim (pages_from server none (window server py start end) (allowed_requests ids + 1)
                  1 [] items none api k) [
                    | inl f ↦
                        subst (λ z. IsPrefix z items) (first_ends none items r f ∙ whole)
                          (IsPrefix-self items)
                    | inr (found, noted, rest, after, f, g, l) ↦
                        (subst (λ z. IsPrefix z items)
                          (answer_goes_on none 1 [] found none r noted f ∙ whole)
                          (pages-IsPrefix server none (window server py start end) rest 2 found
                            items noted after l))
                  ])
          | inr over ↦
              (let long = leb_gt (length rows_here) max_per_page over in
                let full : length (slice 1 rows_here) ≡ max_per_page =
                  length-take max_per_page rows_here (omega arith) in
                elim (pages_from server none (window server py start end) (allowed_requests ids + 1)
                  1 [] items none api k) [
                    | inl f ↦
                        (absurd (
                          full_page items (slice 1 rows_here) (honest.total start end) full
                            (λ n q. omega (arith, honest.total_right api.sent start end n q))
                            (ap (read_answer none 1 [] none)
                                (sym (honest.serves api.sent start end 1))
                              ∙ f)))
                    | inr (found, noted, rest, after, f, g, l) ↦
                        (let same : found ≡ slice 1 rows_here =
                            answer_goes_on none 1 [] found none r noted f ∙ first_page in
                          absurd (
                            omega (
                              arith,
                              second_page rest found noted after long (ap length same ∙ full) g l,
                            )))
                  ])
        ]
