-- ===== src/Library/Grid/Controls.antt =====
-- The controls of web/src/features/library/components/LibraryGrid.tsx.
use linktheca.Prelude.{
  String, ◌≡◌, refl, ◌∙◌, ap, Bool, true, false, not, ◌&&◌, ◌||◌, Option, none, some, List, [], ◌∷◌,
  ◌++◌, arith, map,
}
use linktheca.Web.Http.{Thrown}
use mathlib.Core.Path.{fun_ext}
use linktheca.Web.View.{View, map_part, offers}
use linktheca.Web.View.Offers.{offers-append, offers-map, offers_never}
use linktheca.Web.Query.Listing.{Listing, region, load_more as load_button}
use linktheca.Library.Types.{LibraryItem, FilterParams, LibraryFilterState, all, read, archived}
use linktheca.Library.Cards.{Click, Display, library_card}
use linktheca.Library.Grid.{
  GridClick, on_item, open_add_link, load_more, retry, is_filtered, cards, library_grid,
}

-- The controls that are not an article's.
abbrev pub is_load_more : GridClick → Bool
is_load_more load_more = true
is_load_more (on_item id c) = false
is_load_more open_add_link = false
is_load_more retry = false

abbrev pub is_retry : GridClick → Bool
is_retry retry = true
is_retry (on_item id c) = false
is_retry open_add_link = false
is_retry load_more = false

abbrev pub is_add_link : GridClick → Bool
is_add_link open_add_link = true
is_add_link (on_item id c) = false
is_add_link retry = false
is_add_link load_more = false

abbrev pub is_empty : List LibraryItem → Bool
is_empty [] = true
is_empty (i ∷ is) = false

-- Neither a state nor the favorites are singled out; with no choice of a state, only the unread
-- articles are listed.
abbrev pub shows_all : Option LibraryFilterState → Option Bool → Bool
shows_all (some all) none = true
shows_all (some all) (some false) = true
shows_all (some all) (some true) = false
shows_all (some read) favorite = false
shows_all (some archived) favorite = false
shows_all none favorite = false

filtered_unless_all :
    (state : Option LibraryFilterState) (favorite : Option Bool)
    → not (is_filtered (record { state = state; favorite = favorite })) ≡ shows_all state favorite
filtered_unless_all (some all) none = refl
filtered_unless_all (some all) (some false) = refl
filtered_unless_all (some all) (some true) = refl
filtered_unless_all (some read) favorite = refl
filtered_unless_all (some archived) favorite = refl
filtered_unless_all none favorite = refl

card_offers :
    (d : Display) (kind : GridClick → Bool) (item : LibraryItem)
    → ((c : Click) → kind (on_item item.id c) ≡ false)
    → offers kind (map (map_part (on_item item.id)) (library_card d item false false false)) ≡ false
card_offers d kind item silent =
    offers-map kind (on_item item.id) (library_card d item false false false)
    ∙ ap (λ k. offers k (library_card d item false false false)) (fun_ext silent)
    ∙ offers_never (library_card d item false false false)

cards_offer :
    (d : Display) (kind : GridClick → Bool) (items : List LibraryItem)
    → ((i : LibraryItem) (c : Click) → kind (on_item i.id c) ≡ false)
    → offers kind (cards d items) ≡ false
cards_offer d kind [] silent = refl
cards_offer d kind (i ∷ is) silent = rw (
  offers-append kind (map (map_part (on_item i.id)) (library_card d i false false false))
      (cards d is),
  card_offers d kind i (silent i),
  cards_offer d kind is silent,
)

after_cards :
    (d : Display) (kind : GridClick → Bool) (items : List LibraryItem) (v : View GridClick)
    → ((i : LibraryItem) (c : Click) → kind (on_item i.id c) ≡ false)
    → offers kind (cards d items ++ v) ≡ offers kind v
after_cards d kind items v silent =
    offers-append kind (cards d items) v
    ∙ ap (λ b. b || offers kind v) (cards_offer d kind items silent)

abbrev OffersParts : View GridClick → FilterParams → Listing LibraryItem → Type 0
OffersParts v f l =
    let there = not l.is_loading && not l.is_error in
    (offers is_load_more v
      ≡ (there && (not (is_empty l.items) && (l.has_more && not l.is_fetching_next_page))))
    × (offers is_retry v ≡ (not l.is_loading && l.is_error))
    × (offers is_add_link v ≡ (there && (is_empty l.items && shows_all f.state f.favorite)))

by_parts :
    (d : Display) (message_of : Thrown → String) (f : FilterParams) (l : Listing LibraryItem)
    (loading error : Bool) (items : List LibraryItem)
    → let m = record l { is_loading = loading; is_error = error; items = items } in
      OffersParts (library_grid d message_of f m) f m
unfolding library_grid region
by_parts d message_of f l true error items = (refl, refl, refl)
by_parts d message_of f l false true items = (refl, refl, refl)
by_parts d message_of f l false false [] = ground (arith, filtered_unless_all f.state f.favorite)
by_parts d message_of f l false false (i ∷ is) =
    let more : View GridClick = load_button l load_more in
    (
      after_cards d is_load_more (i ∷ is) more (λ j c. refl) ∙ ground arith,
      after_cards d is_retry (i ∷ is) more (λ j c. refl) ∙ ground arith,
      after_cards d is_add_link (i ∷ is) more (λ j c. refl) ∙ ground arith,
    )

-- The grid of the library offers more articles exactly if it is neither loading nor failed, has
-- some, and there are more that are not being fetched; another try exactly if it failed and is not
-- loading; and to add a link exactly if it is neither loading nor failed, has none, and the filters
-- ask for all states, which the default does not, and not for the favorites alone.
pub grid_offers :
    (d : Display) (message_of : Thrown → String) (f : FilterParams) (l : Listing LibraryItem)
    → let there = not l.is_loading && not l.is_error in
      (offers is_load_more (library_grid d message_of f l)
        ≡ (there && (not (is_empty l.items) && (l.has_more && not l.is_fetching_next_page))))
      × (offers is_retry (library_grid d message_of f l) ≡ (not l.is_loading && l.is_error))
      × (offers is_add_link (library_grid d message_of f l)
          ≡ (there && (is_empty l.items && shows_all f.state f.favorite)))
grid_offers d message_of f l = by_parts d message_of f l l.is_loading l.is_error l.items
