-- ===== src/Web/Query/Listing.antt =====
-- A paged list as the pages of web/src see it: what `useLibraryQuery` of
-- web/src/features/library/use-library.tsx and `useMatchesQuery` of
-- web/src/features/radar/use-radar.tsx return, and how it is shown.
use linktheca.Prelude.{
  String, Bool, false, Option, none, some, List, [], ◌∷◌, ◌++◌, nullish, if◌then◌else◌,
}
use linktheca.Web.Http.{Thrown}
use linktheca.Web.Paging.{Page, items_of, has_more}
use linktheca.Web.Query.{Query, is_loading, is_error, is_success}
use linktheca.Web.View.{View, button, alert}

pub record Listing (A : Type 0) : Type 0 where
  pub items : List A
  pub has_more : Bool
  pub is_loading : Bool
  pub is_placeholder_data : Bool
  pub is_success : Bool
  pub is_error : Bool
  pub error : Option Thrown
  pub is_fetching_next_page : Bool

unfoldable pub listing : {A : Type 0} → Query (List (Page A)) → Bool → Bool → Listing A
listing q placeholder fetching_next = record {
  items = items_of (nullish q.found []);
  has_more = has_more (nullish q.found []);
  is_loading = is_loading q;
  is_placeholder_data = placeholder;
  is_success = is_success q;
  is_error = is_error q;
  error = q.failure;
  is_fetching_next_page = fetching_next;
}

module _ {E : Type 0} where
  -- web/src/shared/ui/ErrorPanel.tsx
  unfoldable pub error_panel : String → E → View E
  error_panel message retry = alert message ∷ button "Try again" false retry ∷ []

-- `error instanceof Error ? error.message : fallback`, for the messages of what may be thrown
abbrev pub message : (Thrown → String) → String → Option Thrown → String
message message_of fallback none = fallback
message message_of fallback (some e) = message_of e

module _ {A E : Type 0} where
  abbrev pub load_more : Listing A → E → View E
  load_more l more =
      if l.has_more
      then button (if l.is_fetching_next_page then "Loading…" else "Load more")
          l.is_fetching_next_page more
        ∷ []
      else []

  -- The list, or what stands for it: the loader, the error, the words for an empty list.
  unfoldable pub region : View E → String → E → View E → (List A → View E) → E → Listing A → View E
  unfolding error_panel
  region loader failure retry empty grid more l =
      if l.is_loading
      then loader
      else if l.is_error
      then error_panel failure retry
      else elim l.items [ [] ↦ empty | x ∷ xs ↦ grid (x ∷ xs) ++ load_more l more ]
