-- ===== src/Yclients/Paging.antt =====
-- yclients_api.py: the paginated and the dated listings of `YClientsAPI`.
--
-- The server is a function of the number of requests sent so far, of the parameters and of the
-- page, so that two requests for one page may be answered differently. The loops run on fuel.
pub mod Rounds
pub mod Pieces
pub mod Termination
pub mod Distinct
pub mod Prefix
pub mod Complete
pub mod Listed
pub mod Coverage
use Prim.Native.Nat.{◌/◌}
use yclients_project.Prelude.{
  ℕ, zero, suc, ◌+◌, ◌-◌, ◌*◌, Bool, true, false, not, ◌&&◌, ◌||◌, Option, none, some, List, [],
  ◌∷◌, ◌++◌, if◌then◌else◌, ltb, leb, ◌==◌, elem, length, is_empty, is_some, is_subset,
}
use yclients_project.Prelude.Text.{Text, codes}
use yclients_project.Sync.Parsing.{DateTimeText}

-- An element of a `data` list: its `id`, missing also where it is not a dictionary, and the rest.
pub record Item : Type 0 where
  pub id : Option ℕ
  pub body : Text

-- The `data` field. An empty or null value counts as an empty list.
pub data Data : Type 0 where
  missing not_a_list : Data
  listed : List Item → Data

-- What `_get` gives: `none`, an exception, or the dictionary of an answer with status 200.
pub record Answer : Type 0 where
  pub is_failure : Bool
  pub content : Data
  pub meta_total : Option ℕ
  pub count : Option ℕ

pub data Response : Type 0 where
  nothing : Response
  broken : Text → Response
  answered : Answer → Response

pub record Params : Type 0 where
  pub start_date : Option Text
  pub end_date : Option Text

abbrev pub Server : Type 0
Server = ℕ → Params → ℕ → Response

-- The attributes that the listings change, and the number of requests sent.
pub record Api : Type 0 where
  pub split_seen : Option (List ℕ)
  pub split_requests : ℕ
  pub last_dated_fetch_complete : Bool
  pub sent : ℕ

-- `stuck`: the fuel ran out.
pub data Fetched (A : Type 0) : Type 0 where
  got : A → Fetched A
  raises : Text → Fetched A
  stuck : Fetched A

abbrev pub max_per_page : ℕ
max_per_page = 200

abbrev pub max_plain_pages : ℕ
max_plain_pages = 2000

abbrev pub allowed_requests : List ℕ → ℕ
allowed_requests seen = 500 + 12 * (length seen / max_per_page)

-- `_spend_split_budget`; the flag says that the budget is exceeded.
unfoldable pub spend_split_budget : Api → Api × Bool
spend_split_budget api = elim api.split_seen [
  | none ↦ (api, false)
  | some seen ↦ (
    record api { split_requests = api.split_requests + 1 },
    ltb (allowed_requests seen) (api.split_requests + 1),
  )
]

-- The ids of a page, if every element has one.
abbrev pub all_ids : List Item → Option (List ℕ)
all_ids [] = some []
all_ids (item ∷ items) =
    let rest = all_ids items in
    elim item.id [ none ↦ none | some i ↦ elim rest [ none ↦ none | some is ↦ some (i ∷ is) ] ]

-- What one round of the loop decides: to end with a result, or to go on with these rows and ids.
pub data Round : Type 0 where
  ends : Fetched (List Item) → Round
  goes_on : List Item → Option (List ℕ) → Round

-- `total_count and len(all_items) >= total_count`
abbrev pub reaches : Option ℕ → ℕ → Bool
reaches none n = false
reaches (some total) n = not (total == 0) && leb total n

abbrev pub or_count : Option ℕ → Option ℕ → Option ℕ
or_count none count = count
or_count (some total) count = if total == 0 then count else some total

abbrev pub at_limit : Option ℕ → ℕ → Bool
at_limit none page = false
at_limit (some limit) page = leb limit page

-- The ids seen, for an undated listing: `none` where the page repeats only known rows.
abbrev pub note_ids : List ℕ → List Item → Option (List ℕ) → Option (List ℕ)
note_ids seen found none = some seen
note_ids seen found (some ids) =
    if leb max_per_page (length found) && is_subset ids seen then none else some (ids ++ seen)

-- The end of a round, after the checks of the page.
unfoldable pub take_page : Option ℕ → ℕ → Answer → List Item → List Item → Option (List ℕ) → Round
take_page limit page answer all found seen =
    let all_items = all ++ found in
    if reaches (or_count answer.meta_total answer.count) (length all_items)
    then ends (got all_items)
    else if ltb (length found) max_per_page
    then ends (got all_items)
    else if at_limit limit page
    then ends (got all_items)
    else goes_on all_items seen

unfoldable pub read_rows : Option ℕ → ℕ → Answer → List Item → Option (List ℕ) → List Item → Round
unfolding take_page
read_rows limit page answer all seen [] = ends (got all)
read_rows limit page answer all none (item ∷ found) =
    take_page limit page answer all (item ∷ found) none
read_rows limit page answer all (some seen) (item ∷ found) =
    elim (note_ids seen (item ∷ found) (all_ids (item ∷ found))) [
      | none ↦ ends (raises (codes "repeated rows already returned"))
      | some noted ↦ take_page limit page answer all (item ∷ found) (some noted)
    ]

unfoldable pub read_answer : Option ℕ → ℕ → List Item → Option (List ℕ) → Response → Round
unfolding read_rows
read_answer limit page all seen nothing =
    ends (raises (codes "Failed to fetch paginated YClients endpoint"))
read_answer limit page all seen (broken error) = ends (raises error)
read_answer limit page all seen (answered answer) =
    if answer.is_failure
    then ends (raises (codes "returned success=false"))
    else elim answer.content [
      | missing ↦ ends (raises (codes "returned no data field"))
      | not_a_list ↦ ends (raises (codes "returned non-list data"))
      | listed found ↦ read_rows limit page answer all seen found
    ]

module _ (server : Server) where
  unfoldable pub page_round :
      Option ℕ → Params → ℕ → List Item → Option (List ℕ) → Api → Api × Round
  unfolding spend_split_budget
  page_round limit params page all seen api =
      let (spent, over) = spend_split_budget api in
      if over
      then (spent, ends (raises (codes "the date filter is likely no longer honoured")))
      else if is_some seen && ltb max_plain_pages page
      then (spent, ends (raises (codes "too many pages")))
      else (
        record spent { sent = spent.sent + 1 },
        read_answer limit page all seen (server spent.sent params page),
      )

  unfoldable pub pages :
      ℕ → Option ℕ → Params → ℕ → List Item → Option (List ℕ) → Api → Api × Fetched (List Item)
  pages zero limit params page all seen api = (api, stuck)
  pages (suc fuel) limit params page all seen api =
      let (after, round) = page_round limit params page all seen api in
      elim round [
        | ends result ↦ (after, result)
        | goes_on all_items noted ↦ pages fuel limit params (page + 1) all_items noted after
      ]

  -- `seen_ids = set() if self._split_seen is None else None`
  abbrev pub seen_ids : Api → Option (List ℕ)
  seen_ids api = elim api.split_seen [ none ↦ some [] | some seen ↦ none ]

  abbrev pub pages_fuel : Api → ℕ
  pages_fuel api = elim api.split_seen [
    | none ↦ max_plain_pages + 1
    | some seen ↦ allowed_requests seen + 1
  ]

  unfoldable pub get_all_pages : Option ℕ → Params → Api → Api × Fetched (List Item)
  get_all_pages limit params api = pages (pages_fuel api) limit params 1 [] (seen_ids api) api

abbrev pub add_fresh : Item → List Item × List ℕ → List Item × List ℕ
add_fresh item rest = (item ∷ rest.0, rest.1)

-- The loop of `_keep_new_rows`: the rows that are kept, and the ids seen after it.
unfoldable pub fresh_rows : List ℕ → List Item → List Item × List ℕ
fresh_rows seen [] = ([], seen)
fresh_rows seen (item ∷ items) = elim item.id [
  | none ↦ add_fresh item (fresh_rows seen items)
  | some i ↦
      if elem i seen then fresh_rows seen items else add_fresh item (fresh_rows (i ∷ seen) items)
]

unfoldable pub keep_new_rows : List Item → Api → Api × List Item
unfolding fresh_rows
keep_new_rows items api = elim api.split_seen [
  | none ↦ (api, items)
  | some seen ↦
      (let (fresh, noted) = fresh_rows seen items in
        (record api { split_seen = some noted }, fresh))
]

abbrev pub kept : Api × List Item → Api × Fetched (List Item)
kept result = (result.0, got result.1)

-- A day that needs more than one page makes the fetch incomplete.
unfoldable pub note_day : List Item → Api → Api
note_day whole_day api =
    if ltb max_per_page (length whole_day)
    then record api { last_dated_fetch_complete = false }
    else api

module _ (server : Server) (py : DateTimeText) where
  abbrev pub window : ℕ → ℕ → Params
  window start end = record {
    start_date = some (py.date_isoformat start);
    end_date = some (py.date_isoformat end);
  }

  -- A single day that fills a page: its pages are read as they come.
  unfoldable pub fetch_whole_day : ℕ → ℕ → Api → Api × Fetched (List Item)
  unfolding keep_new_rows note_day
  fetch_whole_day start end api =
      let (read, result) = get_all_pages server none (window start end) api in
      elim result [
        | got whole_day ↦ kept (keep_new_rows whole_day (note_day whole_day read))
        | raises error ↦ (read, raises error)
        | stuck ↦ (read, stuck)
      ]

  abbrev pub middle : ℕ → ℕ → ℕ
  middle start end = start + (end - start) / 2

  abbrev pub then_append : List Item → Api × Fetched (List Item) → Api × Fetched (List Item)
  then_append left (api, got right) = (api, got (left ++ right))
  then_append left (api, raises error) = (api, raises error)
  then_append left (api, stuck) = (api, stuck)

  unfoldable pub fetch_single_page_ranges : ℕ → ℕ → ℕ → Api → Api × Fetched (List Item)
  unfolding fetch_whole_day
  fetch_single_page_ranges zero start end api = (api, stuck)
  fetch_single_page_ranges (suc fuel) start end api =
      let (probed, result) = get_all_pages server (some 1) (window start end) api in
      elim result [
        | raises error ↦ (probed, raises error)
        | stuck ↦ (probed, stuck)
        | got first_page ↦ elim (ltb (length first_page) max_per_page) [
          | true ↦ kept (keep_new_rows first_page probed)
          | false ↦ elim (leb end start) [
            | true ↦ fetch_whole_day start end probed
            | false ↦
                (let (halved, left) =
                    fetch_single_page_ranges fuel start (middle start end) probed in
                  elim left [
                    | raises error ↦ (halved, raises error)
                    | stuck ↦ (halved, stuck)
                    | got rows_before ↦
                        then_append rows_before
                          (fetch_single_page_ranges fuel (middle start end + 1) end halved)
                  ])
          ]
        ]
      ]

  abbrev pub closed : Api × Fetched (List Item) → Api × Fetched (List Item)
  closed result = (record result.0 { split_seen = none; split_requests = 0 }, result.1)

  abbrev pub opened : Api → Api
  opened api = record api {
    split_seen = some [];
    split_requests = 0;
    last_dated_fetch_complete = true;
  }

  -- The split of a window whose texts were read as two days.
  unfoldable pub fetch_window : ℕ → ℕ → Api → Api × Fetched (List Item)
  unfolding fetch_single_page_ranges
  fetch_window start end api =
      closed (fetch_single_page_ranges (end - start + 1) start end (opened api))

  abbrev pub blank_to_none : Option Text → Option Text
  blank_to_none none = none
  blank_to_none (some []) = none
  blank_to_none (some (c ∷ s)) = some (c ∷ s)

  abbrev pub bad_date : Api → Api × Fetched (List Item)
  bad_date api = closed (opened api, raises (codes "Invalid isoformat string"))

  abbrev pub fetch_texts : Text → Text → Api → Api × Fetched (List Item)
  fetch_texts start_date end_date api = elim (py.date_fromisoformat start_date) [
    | none ↦ bad_date api
    | some start ↦ elim (py.date_fromisoformat end_date) [
      | none ↦ bad_date api
      | some end ↦ fetch_window start end api
    ]
  ]

  unfoldable pub get_all_pages_dated : Option Text → Option Text → Api → Api × Fetched (List Item)
  unfolding fetch_window
  get_all_pages_dated start_date end_date api =
      let from = blank_to_none start_date in
      let to = blank_to_none end_date in
      let plain = get_all_pages server none (record { start_date = from; end_date = to }) api in
      elim from [
        | none ↦ plain
        | some start ↦ elim to [ none ↦ plain | some end ↦ fetch_texts start end api ]
      ]
