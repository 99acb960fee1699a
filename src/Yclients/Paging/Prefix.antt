-- ===== src/Yclients/Paging/Prefix.antt =====
-- yclients_api.py: the rows of the pages read so far stand at the head of what the loop returns.
use yclients_project.Prelude.{
  ℕ, zero, suc, ◌+◌, ◌≤◌, ◌<◌, ◌≡◌, ◌≢◌, ◌⊎◌, refl, sym, ap, subst, ◌∙◌, Option, List, [], ◌∷◌,
  ◌++◌, arith, inl, inr, length, IsIn, append-IsIn_left,
}
use yclients_project.Yclients.Paging.{
  Item, Data, missing, not_a_list, listed, Response, nothing, broken, answered, Params, Server, Api,
  Fetched, got, ends, goes_on, take_page, read_rows, read_answer, page_round, pages,
  spend_split_budget,
}
use yclients_project.Yclients.Paging.Rounds.{Round-cases, pages_round, pages_ends}

abbrev pub rows_of_data : Data → List Item
rows_of_data missing = []
rows_of_data not_a_list = []
rows_of_data (listed found) = found

abbrev pub rows_of : Response → List Item
rows_of nothing = []
rows_of (broken error) = []
rows_of (answered answer) = rows_of_data answer.content

-- The rows `all` and perhaps others behind them.
pub record IsPrefix (all items : List Item) : Type 0 where
  pub more : List Item
  pub split : items ≡ all ++ more

append_empty : (xs : List Item) → xs ++ [] ≡ xs
append_empty [] = refl
append_empty (x ∷ xs) = ap (λ z. x ∷ z) (append_empty xs)

append_assoc : (xs ys zs : List Item) → (xs ++ ys) ++ zs ≡ xs ++ (ys ++ zs)
append_assoc [] ys zs = refl
append_assoc (x ∷ xs) ys zs = ap (λ z. x ∷ z) (append_assoc xs ys zs)

pub IsPrefix-self : (all : List Item) → IsPrefix all all
IsPrefix-self all = record { more = []; split = sym (append_empty all) }

IsPrefix-either :
    (all items found : List Item) → (items ≡ all) ⊎ (items ≡ all ++ found) → IsPrefix all items
IsPrefix-either all items found (inl e) = record { more = []; split = e ∙ sym (append_empty all) }
IsPrefix-either all items found (inr e) = record { more = found; split = e }

IsPrefix-trans : (xs ys zs : List Item) → IsPrefix xs ys → IsPrefix ys zs → IsPrefix xs zs
IsPrefix-trans xs ys zs p q = record {
  more = p.more ++ q.more;
  split = q.split ∙ ap (λ z. z ++ q.more) p.split ∙ append_assoc xs p.more q.more;
}

pub IsPrefix-IsIn :
    (x : Item) (all items : List Item) → IsPrefix all items → IsIn x all → IsIn x items
IsPrefix-IsIn x all items p i =
    subst (λ z. IsIn x z) (sym p.split) (append-IsIn_left x all p.more i)

length-append : (xs ys : List Item) → length (xs ++ ys) ≡ length xs + length ys
length-append [] ys = omega arith
length-append (x ∷ xs) ys = omega (arith, length-append xs ys)

pub IsPrefix-length : (all items : List Item) → IsPrefix all items → length all ≤ length items
IsPrefix-length all items p = omega (arith, ap length p.split, length-append all p.more)

-- One row more makes a list longer.
pub longer : (xs ys items : List Item) → ys ≢ [] → items ≡ xs ++ ys → length xs < length items
longer xs [] items h e = absurd (h refl)
longer xs (y ∷ ys) items h e = omega (arith, ap length e, length-append xs (y ∷ ys))

module _ (limit : Option ℕ) (page : ℕ) (all items : List Item) (seen : Option (List ℕ))
    (r : Response) where
  answer_ends :
      read_answer limit page all seen r ≡ ends (got items)
      → (items ≡ all) ⊎ (items ≡ all ++ rows_of r)
  unfolding read_answer read_rows take_page
  answer_ends h = ground arith

  pub answer_goes_on :
      (noted : Option (List ℕ))
      → read_answer limit page all seen r ≡ goes_on items noted
      → items ≡ all ++ rows_of r
  unfolding read_answer read_rows take_page
  answer_goes_on noted h = ground arith

  -- A page with rows is appended when the loop ends on it.
  pub nonempty_ends :
      rows_of r ≢ []
      → read_answer limit page all seen r ≡ ends (got items)
      → items ≡ all ++ rows_of r
  unfolding read_answer read_rows take_page
  nonempty_ends some_rows h = ground arith

module _ (server : Server) (limit : Option ℕ) (params : Params) where
  abbrev pub reply : ℕ → Api → Response
  reply page api = server api.sent params page

  pub round_got :
      (page : ℕ) (all items : List Item) (seen : Option (List ℕ)) (api : Api)
      → (page_round server limit params page all seen api).1 ≡ ends (got items)
      → read_answer limit page all seen (reply page api) ≡ ends (got items)
  unfolding page_round spend_split_budget
  round_got page all items seen api h = ground arith

  pub round_goes_on :
      (page : ℕ) (all rows : List Item) (seen noted : Option (List ℕ)) (api : Api)
      → (page_round server limit params page all seen api).1 ≡ goes_on rows noted
      → (read_answer limit page all seen (reply page api) ≡ goes_on rows noted)
        × ((page_round server limit params page all seen api).0.sent ≡ api.sent + 1)
  unfolding page_round spend_split_budget
  round_goes_on page all rows seen noted api h = (ground arith, ground arith)

  pub pages-IsPrefix :
      (fuel page : ℕ) (all items : List Item) (seen : Option (List ℕ)) (api : Api)
      → (pages server fuel limit params page all seen api).1 ≡ got items
      → IsPrefix all items
  unfolding pages
  pages-IsPrefix zero page all items seen api h = cc
  pages-IsPrefix (suc fuel) page all items seen api h =
      elim (Round-cases (page_round server limit params page all seen api).1) [
        | inl (result, f) ↦
            (let q = pages_ends server limit params fuel page all seen result api f in
              let same : result ≡ got items =
                ap (λ (z : Api × Fetched (List Item)). z.1) (sym q) ∙ h in
              IsPrefix-either all items (rows_of (reply page api)) (
                answer_ends limit page all items seen (reply page api)
                  (round_got page all items seen api (f ∙ ap ends same))))
        | inr (found, noted, f) ↦
            (let q = pages_round server limit params fuel page all found seen noted api f in
              let after : Api = (page_round server limit params page all seen api).0 in
              IsPrefix-trans all found items
                (IsPrefix-either all found (rows_of (reply page api)) (
                  inr (
                    answer_goes_on limit page all found seen (reply page api) noted
                      (round_goes_on page all found seen noted api f).0)))
                (pages-IsPrefix fuel (page + 1) found items noted after
                  (ap (λ (z : Api × Fetched (List Item)). z.1) (sym q) ∙ h)))
      ]

  -- What the loop returns, from its first round.
  pub pages_from :
      (fuel page : ℕ) (all items : List Item) (seen : Option (List ℕ)) (api : Api)
      → (pages server fuel limit params page all seen api).1 ≡ got items
      → (read_answer limit page all seen (reply page api) ≡ ends (got items))
        ⊎ ((found : List Item) × (noted : Option (List ℕ)) × (rest : ℕ) × (after : Api)
            × (read_answer limit page all seen (reply page api) ≡ goes_on found noted)
            × (after.sent ≡ api.sent + 1)
            × ((pages server rest limit params (page + 1) found noted after).1 ≡ got items))
  unfolding pages
  pages_from zero page all items seen api h = cc
  pages_from (suc fuel) page all items seen api h =
      elim (Round-cases (page_round server limit params page all seen api).1) [
        | inl (result, f) ↦
            (let q = pages_ends server limit params fuel page all seen result api f in
              let same : result ≡ got items =
                ap (λ (z : Api × Fetched (List Item)). z.1) (sym q) ∙ h in
              inl (round_got page all items seen api (f ∙ ap ends same)))
        | inr (found, noted, f) ↦
            (let q = pages_round server limit params fuel page all found seen noted api f in
              let after : Api = (page_round server limit params page all seen api).0 in
              let (answer, sent) = round_goes_on page all found seen noted api f in
              inr (
                found,
                noted,
                fuel,
                after,
                answer,
                sent,
                ap (λ (z : Api × Fetched (List Item)). z.1) (sym q) ∙ h,
              ))
      ]
