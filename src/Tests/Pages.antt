-- ===== src/Tests/Pages.antt =====
-- The pages, the routes and their guards.
use linktheca.Prelude.{
  ◌≡◌, ◌↔◌, refl, String, true, false, not, ◌&&◌, none, some, List, [], ◌∷◌, ◌==◌, string_eq,
  if◌then◌else◌,
}
use linktheca.Web.View.{offers}
use linktheca.Web.Query.{Query, Status, IsResult}
use linktheca.Web.Query.Listing.{Listing}
use linktheca.Library.Types.{LibraryItemDetail, FilterParams, all}
use linktheca.Library.Cards as Cards
use linktheca.Library.Reader.Page as Item
use linktheca.Library.Grid.{library_grid}
use linktheca.Library.Grid.Controls.{
  shows_all, is_load_more, is_retry, is_add_link, is_empty, grid_offers,
}
use linktheca.Radar.Types.{MatchView, TopicWithStats}
use linktheca.Radar.TopicPage as Topic
use linktheca.Radar.Reader.Page as Match
use linktheca.Radar.Sources.Pages.{sources, admin_sources}
use linktheca.Radar.Sources.Pages.Controls.{
  edits, deletes, subscribes, unsubscribes, has_id, has_own_id, has_new_id, has_subscribed_id,
  sources_offer,
}
use linktheca.Shell.Routes.{
  Element, layout, protected, admin, page, login, library_list, admin_sources as admin_page,
  not_found, router, branches,
}
use linktheca.Shell.Routes.Access.{Guarded, router-Guarded}
use linktheca.Web.Location.{at}
use linktheca.Shell.Routes.Landing.{Lands, PicksTargets, redirects_end}
use linktheca.Shell.Offline.{IsStuck, pages_throw}
use linktheca.Tests.Fixtures.{feed_5, signed_in, fresh}
use linktheca.Tests.Dialogs.{display}

router-Guarded_example : Guarded signed_in.auth (at "/library") (branches router)
router-Guarded_example = router-Guarded signed_in.auth (at "/library")

abbrev pick : String → List Element
pick to =
    if to == "/login"
    then layout ∷ layout ∷ page login ∷ []
    else if to == "/library"
    then layout ∷ protected ∷ layout ∷ page library_list ∷ []
    else if to == "/admin/sources"
    then layout ∷ protected ∷ layout ∷ admin ∷ page admin_page ∷ []
    else layout ∷ page not_found ∷ []

pick-PicksTargets : PicksTargets pick
pick-PicksTargets = record { login_branch = refl; library_branch = refl; admin_branch = refl }

redirects_end_example : Lands pick 2 (fresh none).auth (at "/") (branches router)
redirects_end_example = redirects_end pick (fresh none).auth (at "/") pick-PicksTargets

-- A query of a browser that is offline, and one with its data.
abbrev offline : {A : Type 0} → Query A
offline = record { status = Status.pending; found = none; failure = none; is_fetching = false }

offline-IsResult : {A : Type 0} → IsResult (offline {A = A})
offline-IsResult = record { no_data = λ e. refl; has_data = λ e. cc; has_error = λ e. cc }

abbrev loaded : {A : Type 0} → A → Query A
loaded a = record { status = Status.success; found = some a; failure = none; is_fetching = false }

abbrev cards : Cards.Display
cards = record { host = λ u. u; relative_from_now = λ t. "today"; encode = λ f. f }

abbrev listing : {A : Type 0} → List A → Listing A
listing items = record {
  items = items;
  has_more = true;
  is_loading = false;
  is_placeholder_data = false;
  is_success = true;
  is_error = false;
  error = none;
  is_fetching_next_page = false;
}

abbrev pending : Topic.Pending
pending = record { update = false; del = false }

pages_throw_example :
    ((Item.view cards false offline false false false ≡ none)
      ↔ IsStuck (offline {A = LibraryItemDetail}))
    × ((Topic.view display (λ e. "") false offline (listing []) false pending ≡ none)
        ↔ IsStuck (offline {A = TopicWithStats}))
    × ((Match.view display offline false ≡ none) ↔ IsStuck (offline {A = MatchView}))
pages_throw_example =
    pages_throw cards display (λ e. "") offline offline offline (listing []) false false false false
      pending offline-IsResult offline-IsResult offline-IsResult

abbrev all_filter : FilterParams
all_filter = record { state = some all; favorite = none }

grid_offers_example :
    let l = listing ([]) in
    let there = not l.is_loading && not l.is_error in
    (offers is_load_more (library_grid cards (λ e. "") all_filter l)
      ≡ (there && (not (is_empty l.items) && (l.has_more && not l.is_fetching_next_page))))
    × (offers is_retry (library_grid cards (λ e. "") all_filter l)
        ≡ (not l.is_loading && l.is_error))
    × (offers is_add_link (library_grid cards (λ e. "") all_filter l)
        ≡ (there && (is_empty l.items && shows_all all_filter.state all_filter.favorite)))
grid_offers_example = grid_offers cards (λ e. "") all_filter (listing ([]))

sources_offer_example :
    let items = feed_5 ∷ [] in
    let page = sources display (loaded items) (some 3) none false in
    let admin_page = admin_sources display (loaded items) none false in
    (offers (edits 5) page ≡ has_own_id 5 items)
    × (offers (deletes 5) page ≡ has_own_id 5 items)
    × (offers (subscribes 5) page ≡ has_new_id 5 items)
    × (offers (unsubscribes 5) page ≡ has_subscribed_id 5 items)
    × (offers (edits 5) admin_page ≡ has_id 5 items)
    × (offers (deletes 5) admin_page ≡ has_id 5 items)
    × (offers (subscribes 5) admin_page ≡ false)
    × (offers (unsubscribes 5) admin_page ≡ false)
sources_offer_example = sources_offer display 5 (loaded (feed_5 ∷ [])) (some 3) false refl
