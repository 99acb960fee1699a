-- ===== src/Tests/Yclients.antt =====
-- Listings of a small server, and the theorems of Yclients at them.
use yclients_project.Prelude.{
  ℕ, ◌≡◌, ◌≢◌, ◌⊎◌, refl, arith, inl, none, some, true, false, List, [], ◌∷◌, length, IsIn,
}
use yclients_project.Prelude.Text.{codes}
use yclients_project.Sync.Parsing.{DateTimeText}
use yclients_project.Tests.{unary, ones}
use yclients_project.Yclients.Paging.{
  Item, listed, answered, Server, Api, got, stuck, get_all_pages_dated, get_all_pages, pages,
  page_round, read_answer, fetch_window,
}
use yclients_project.Yclients.Paging.Termination.{get_all_pages_dated_ends}
use yclients_project.Yclients.Paging.Distinct.{NoRepeat, ids_of, fetch_window-NoRepeat}
use yclients_project.Yclients.Paging.Complete.{Honest, slice}
use yclients_project.Yclients.Paging.Coverage.{fetch_window_complete}

-- Dates are written in unary.
abbrev dated : DateTimeText
dated = record unary { date_fromisoformat = λ s. some (length s) }

abbrev visit : Item
visit = record { id = some 7; body = codes "visit" }

abbrev twice : List Item
twice = visit ∷ visit ∷ []

-- A server of one visit, listed twice.
abbrev small : Server
small n params page = answered (record {
  is_failure = false;
  content = listed (slice page twice);
  meta_total = some 2;
  count = none;
})

abbrev idle_api : Api
idle_api = record {
  split_seen = none;
  split_requests = 0;
  last_dated_fetch_complete = false;
  sent = 0;
}

two_is : (count : ℕ) → some 2 ≡ some count → 2 ≡ count
two_is count e = cc e

abbrev small-Honest : Honest small dated twice (λ x. 3)
small-Honest = record {
  order = λ n start end. twice;
  total = λ start end. some 2;
  serves = λ n start end page. refl;
  has_all = λ n start end x i from to. i;
  same_length = λ n m start end. refl;
  total_right = λ n start end count e. two_is count e;
}

small_run : (fetch_window small dated 2 4 idle_api).1 ≡ got (visit ∷ [])
unfolding fetch_window get_all_pages pages page_round read_answer
small_run = refl

small_complete : (fetch_window small dated 2 4 idle_api).0.last_dated_fetch_complete ≡ true
unfolding fetch_window get_all_pages pages page_round read_answer
small_complete = refl

get_all_pages_dated_ends_example :
    (get_all_pages_dated small dated (some (ones 2)) (some (ones 4)) idle_api).1 ≢ stuck
get_all_pages_dated_ends_example =
    get_all_pages_dated_ends small dated (some (ones 2)) (some (ones 4)) idle_api

fetch_window-NoRepeat_example : NoRepeat (ids_of (visit ∷ []))
fetch_window-NoRepeat_example =
    fetch_window-NoRepeat small dated 2 4 (visit ∷ []) idle_api small_run

fetch_window_complete_example :
    IsIn visit (visit ∷ []) ⊎ ((i : ℕ) × (visit.id ≡ some i) × IsIn i (ids_of (visit ∷ [])))
fetch_window_complete_example =
    fetch_window_complete small dated twice (λ x. 3) small-Honest visit (inl refl) 2 4 (visit ∷ [])
      idle_api (omega arith) (omega arith) small_run small_complete
