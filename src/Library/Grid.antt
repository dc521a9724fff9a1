-- ===== src/Library/Grid.antt =====
-- web/src/features/library/components/LibraryGrid.tsx and EmptyState.tsx.
pub mod Controls
use linktheca.Prelude.{
  ℕ, String, Bool, true, false, ◌||◌, Option, none, some, List, [], ◌∷◌, map, ◌++◌, if◌then◌else◌,
}
use linktheca.Web.Http.{Thrown}
use linktheca.Web.View.{View, map_part, heading, text, button, skeleton, skeletons}
use linktheca.Web.Query.Listing.{Listing, region, message}
use linktheca.Library.Types.{LibraryItem, FilterParams, LibraryFilterState, all, read, archived}
use linktheca.Library.Filters.{is_favorite}
use linktheca.Library.Cards.{Click, Display, library_card}

pub data GridClick : Type 0 where
  on_item : ℕ → Click → GridClick
  open_add_link load_more retry : GridClick

-- `filters.state !== "all" || filters.favorite === true`
abbrev pub is_filtered : FilterParams → Bool
is_filtered f =
    (elim f.state [ none ↦ true | some s ↦ elim s [ all ↦ false | read ↦ true | archived ↦ true ] ])
    || is_favorite f

-- EmptyState.tsx
unfoldable empty_state : Bool → View GridClick
empty_state filtered =
    if filtered
    then text "No matches" ∷ text "No items match the current filters." ∷ []
    else heading "Nothing here yet"
      ∷ text "Save your first link →"
      ∷ button "+ Add link" false open_add_link
      ∷ []

abbrev pub cards : Display → List LibraryItem → View GridClick
cards d [] = []
cards d (item ∷ items) =
    map (map_part (on_item item.id)) (library_card d item false false false) ++ cards d items

-- `LibraryGrid`, with no menu and no question open
unfoldable pub library_grid :
    Display → (Thrown → String) → FilterParams → Listing LibraryItem → View GridClick
unfolding empty_state
library_grid d message_of filters l =
    region (skeleton "Loading library" ∷ skeletons 6)
      (message message_of "Failed to load library" l.error) retry
      (empty_state (is_filtered filters)) (cards d) load_more l
