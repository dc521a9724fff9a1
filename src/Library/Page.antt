-- ===== src/Library/Page.antt =====
-- The page of the library: web/src/routes/library._index.tsx, with FilterBar.tsx of
-- web/src/features/library/components.
use linktheca.Prelude.{String, Bool, false, Option, List, [], ◌∷◌, ◌++◌, map}
use linktheca.Web.Http.{Thrown}
use linktheca.Web.SearchParams.{SearchParams}
use linktheca.Web.View.{View, map_part, heading, text, button}
use linktheca.Web.Query.Listing.{Listing}
use linktheca.Library.Types.{LibraryItem, FilterParams, LibraryFilterState}
use linktheca.Library.Filters.{
  states, choose_state, toggle_favorite, is_favorite, parse_filters, on_change,
}
use linktheca.Library.Cards.{Display}
use linktheca.Library.Grid.{GridClick, library_grid}

-- `setParams(…, { replace: true })`, or a control of the grid.
pub data Click : Type 0 where
  set_params : SearchParams → Click
  on_grid : GridClick → Click

abbrev state_buttons : Bool → List (String × Option LibraryFilterState) → View FilterParams
state_buttons favorite [] = []
state_buttons favorite ((label, value) ∷ opts) =
    button label false (choose_state value favorite) ∷ state_buttons favorite opts

-- FilterBar.tsx
unfoldable pub filter_bar : Option LibraryFilterState → Bool → View FilterParams
filter_bar state favorite =
    state_buttons favorite states
    ++ button "Favorites only" false (toggle_favorite state favorite) ∷ []

-- `LibraryListRoute`, by what the query of the filters gives
unfoldable pub library_list :
    Display → (Thrown → String) → (FilterParams → Listing LibraryItem) → SearchParams → View Click
unfolding filter_bar
library_list d message_of query params =
    let filters = parse_filters params in
    let bar = filter_bar filters.state (is_favorite filters) in
    heading "Library"
    ∷ text "Your saved articles"
    ∷ (map (map_part (λ next. set_params (on_change params next))) bar
        ++ map (map_part on_grid) (library_grid d message_of filters (query filters)))
