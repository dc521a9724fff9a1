-- ===== src/Library/Filters.antt =====
-- The filters of the library's list in the page's address: web/src/routes/library._index.tsx and
-- web/src/features/library/components/FilterBar.tsx.
pub mod Clicks
use linktheca.Prelude.{
  String, Bool, true, false, Option, none, some, List, [], ◌∷◌, not, ◌==◌, string_eq, if◌then◌else◌,
}
use linktheca.Web.SearchParams.{SearchParams, get, set, delete}
use linktheca.Library.Types.{LibraryFilterState, all, read, archived, LibraryState, FilterParams}

abbrev pub name : LibraryFilterState → String
name all = "all"
name read = "read"
name archived = "archived"

-- `ALLOWED_STATES.includes(state) ? state : undefined`
abbrev pub allowed : String → Option LibraryFilterState
allowed s =
    if s == "all"
    then some all
    else if s == "read"
    then some read
    else if s == "archived"
    then some archived
    else none

abbrev pub parse_state : Option String → Option LibraryFilterState
parse_state none = none
parse_state (some s) = allowed s

abbrev pub is_true : Option String → Bool
is_true none = false
is_true (some s) = s == "true"

-- `b || undefined`
abbrev pub or_undefined : Bool → Option Bool
or_undefined true = some true
or_undefined false = none

unfoldable pub parse_filters : SearchParams → FilterParams
parse_filters params = record {
  state = parse_state (get params "state");
  favorite = or_undefined (is_true (get params "favorite"));
}

abbrev pub put_state : Option LibraryFilterState → SearchParams → SearchParams
put_state none p = delete p "state"
put_state (some s) p = set p "state" (name s)

abbrev pub put_favorite : Option Bool → SearchParams → SearchParams
put_favorite (some true) p = set p "favorite" "true"
put_favorite (some false) p = delete p "favorite"
put_favorite none p = delete p "favorite"

unfoldable pub next_search : SearchParams → FilterParams → SearchParams
next_search current next = put_favorite next.favorite (put_state next.state current)

-- `filters.favorite === true`
abbrev pub is_favorite : FilterParams → Bool
is_favorite f = elim f.favorite [ none ↦ false | some b ↦ b ]

-- The buttons of the bar, and what they ask for.
abbrev pub states : List (String × Option LibraryFilterState)
states =
    ("All", some all) ∷ ("Unread", none) ∷ ("Read", some read) ∷ ("Archived", some archived) ∷ []

unfoldable pub choose_state : Option LibraryFilterState → Bool → FilterParams
choose_state value favorite = record { state = value; favorite = or_undefined favorite }

unfoldable pub toggle_favorite : Option LibraryFilterState → Bool → FilterParams
toggle_favorite state favorite = record { state = state; favorite = some (not favorite) }

-- `onChange` of the route
unfoldable pub on_change : SearchParams → FilterParams → SearchParams
on_change params next = next_search params next

-- `prepareState` of web/src/features/library/use-library.tsx: the state asked for.
unfoldable pub prepare_state : Option LibraryFilterState → Option LibraryState
prepare_state none = some LibraryState.unread
prepare_state (some all) = none
prepare_state (some read) = some LibraryState.read
prepare_state (some archived) = some LibraryState.archived
