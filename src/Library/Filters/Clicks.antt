-- ===== src/Library/Filters/Clicks.antt =====
-- The address after a click on the filter bar, read again.
use linktheca.Prelude.{
  String, ◌≡◌, ap, refl, ◌∙◌, Bool, true, false, Option, none, some, arith, not, ◌==◌, string_eq,
  if◌then◌else◌,
}
use linktheca.Web.SearchParams.{SearchParams, get, get-set, get-delete}
use linktheca.Library.Types.{LibraryFilterState, FilterParams}
use linktheca.Library.Filters.{
  name, parse_state, is_true, or_undefined, parse_filters, put_state, put_favorite, next_search,
  is_favorite, choose_state, toggle_favorite, on_change,
}

abbrev state_value : Option LibraryFilterState → Option String
state_value none = none
state_value (some s) = some (name s)

abbrev favorite_value : Option Bool → Option String
favorite_value (some true) = some "true"
favorite_value (some false) = none
favorite_value none = none

get-put_state :
    (s : Option LibraryFilterState) (p : SearchParams) (k : String)
    → get (put_state s p) k ≡ (if "state" == k then state_value s else get p k)
get-put_state none p k = get-delete p "state" k
get-put_state (some s) p k = get-set p "state" (name s) k

get-put_favorite :
    (b : Option Bool) (p : SearchParams) (k : String)
    → get (put_favorite b p) k ≡ (if "favorite" == k then favorite_value b else get p k)
get-put_favorite none p k = get-delete p "favorite" k
get-put_favorite (some true) p k = get-set p "favorite" "true" k
get-put_favorite (some false) p k = get-delete p "favorite" k

get-next_search :
    (p : SearchParams) (f : FilterParams) (k : String)
    → get (next_search p f) k ≡ (
        if "favorite" == k
        then favorite_value f.favorite
        else if "state" == k
        then state_value f.state
        else get p k)
unfolding next_search
get-next_search p f k =
    get-put_favorite f.favorite (put_state f.state p) k ∙ rw (get-put_state f.state p k) refl

parse_state_value : (s : Option LibraryFilterState) → parse_state (state_value s) ≡ s
parse_state_value none = refl
parse_state_value (some LibraryFilterState.all) = refl
parse_state_value (some LibraryFilterState.read) = refl
parse_state_value (some LibraryFilterState.archived) = refl

parse_favorite_value :
    (f : FilterParams)
    → or_undefined (is_true (favorite_value f.favorite)) ≡ or_undefined (is_favorite f)
parse_favorite_value f = ground arith

filters_read :
    (p : SearchParams) (f : FilterParams)
    → parse_filters (next_search p f)
      ≡ record { state = f.state; favorite = or_undefined (is_favorite f) }
unfolding parse_filters
filters_read p f =
    rw
      (
        get-next_search p f "state",
        get-next_search p f "favorite",
        parse_state_value f.state,
        parse_favorite_value f,
      )
      refl

-- The filters put into the address of the library are read from it again, a favorite flag that is
-- false as undefined, and every other parameter keeps its value.
parse_filters-next_search :
    (p : SearchParams) (f : FilterParams) (k : String)
    → ("state" == k) ≡ false
    → ("favorite" == k) ≡ false
    → (parse_filters (next_search p f)
        ≡ record { state = f.state; favorite = or_undefined (is_favorite f) })
      × (get (next_search p f) k ≡ get p k)
parse_filters-next_search p f k hs hf = (filters_read p f, get-next_search p f k ∙ rw (hf, hs) refl)

chosen_favorite :
    (p : SearchParams)
    → or_undefined (is_favorite (choose_state none (is_favorite (parse_filters p))))
      ≡ (parse_filters p).favorite
unfolding choose_state parse_filters
chosen_favorite p = ground arith

-- After a click on a state of the filter bar the address is read as that state with the favorite
-- flag as before; after a click on the favorites it is read with the flag turned over and the state
-- as before.
pub clicks :
    (p : SearchParams) (value : Option LibraryFilterState)
    → (parse_filters (on_change p (choose_state value (is_favorite (parse_filters p))))
        ≡ record (parse_filters p) { state = value })
      × (parse_filters
            (on_change p (toggle_favorite (parse_filters p).state (is_favorite (parse_filters p))))
          ≡ record (parse_filters p) {
            favorite = or_undefined (not (is_favorite (parse_filters p)));
          })
unfolding on_change choose_state toggle_favorite
clicks p value = (
  filters_read p (choose_state value (is_favorite (parse_filters p)))
      ∙ ap (λ (b : Option Bool). record { state = value; favorite = b }) (chosen_favorite p),
  filters_read p (toggle_favorite (parse_filters p).state (is_favorite (parse_filters p))),
)
