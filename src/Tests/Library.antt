-- ===== src/Tests/Library.antt =====
-- The library's pages, filters, buttons and labels.
use linktheca.Prelude.{
  ℕ, suc, ◌≡◌, refl, false, List, [], ◌∷◌, map, arith, any, string_eq, if◌then◌else◌,
}
use linktheca.Web.Paging.{
  Page, items_of, rounds, has_more, fetch_next_page, next_param, get_next_page_param,
}
use linktheca.Web.Paging.Interface.{InfiniteQuery, loads}
use linktheca.Web.Paging.Loading.{slices, loads_complete}
use linktheca.Library.Reader.{Position, Scrolling, enable, scroll, steps, is_reached}
use linktheca.Library.Reader.Marking.{steps_once}

abbrev five : List ℕ
five = 1 ∷ 2 ∷ 3 ∷ 4 ∷ 5 ∷ []

three_pages : items_of (rounds (slices five) 2 3) ≡ five
unfolding items_of rounds fetch_next_page next_param get_next_page_param
three_pages = refl

-- A query that keeps its pages, and nothing else.
abbrev paged : InfiniteQuery ℕ
paged = record {
  Query = List (Page ℕ);
  new = [];
  pages = λ q. q;
  has_next_page = has_more;
  fetch_next = fetch_next_page;
  pages-new = refl;
  pages-fetch_next = λ serve size q. refl;
  has_next_page_lem = λ q. refl;
}

loads_complete_example :
    (items_of (paged.pages (loads paged (slices five) 2 3)) ≡ five)
    × (paged.has_next_page (loads paged (slices five) 2 3) ≡ false)
loads_complete_example = loads_complete paged five 2 2 (omega arith)

abbrev at : ℕ → Position
at top = record { scroll_top = top; scroll_height = 2000; client_height = 1000 }

abbrev quiet : Scrolling
quiet = record { listening = false; fired = false; reached = 0 }

steps_once_example :
    (steps (enable (at 0) ∷ map scroll (at 950 ∷ at 10 ∷ at 990 ∷ [])) quiet).reached ≡ (
      if any is_reached (at 0 ∷ at 950 ∷ at 10 ∷ at 990 ∷ [])
      then suc quiet.reached
      else quiet.reached)
steps_once_example = steps_once (at 0) (at 950 ∷ at 10 ∷ at 990 ∷ []) quiet
