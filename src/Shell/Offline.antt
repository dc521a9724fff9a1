-- ===== src/Shell/Offline.antt =====
-- The three pages of web/src that read the data of a query which need not have any:
-- routes/library.$id.tsx, routes/radar.topics.$topicId.tsx, and MatchReader.tsx of
-- features/radar/components.
use linktheca.Prelude.{
  ◌≡◌, ◌↔◌, refl, String, Bool, true, false, Option, none, some, arith, if◌then◌else◌,
}
use linktheca.Web.Http.{Thrown}
use linktheca.Web.Query.{Query, Status, pending, error, success, IsResult, is_loading, is_error}
use linktheca.Web.Query.Listing.{Listing}
use linktheca.Library.Types.{LibraryItemDetail}
use linktheca.Library.Cards as Cards
use linktheca.Library.Reader.Page as Item
use linktheca.Radar.Types.{MatchView, TopicWithStats}
use linktheca.Radar.Cards as RadarCards
use linktheca.Radar.TopicPage as Topic
use linktheca.Radar.Reader.Page as Match

-- A query that has not begun, or that waits for the network.
abbrev pub IsStuck : {A : Type 0} → Query A → Type 0
IsStuck q = (q.status ≡ pending) × (q.is_fetching ≡ false)

module _ {A V : Type 0} where
  -- How the three pages choose.
  abbrev choose : Query A → V → (Option Thrown → V) → (A → V) → Option V
  choose q loading failed body =
      if is_loading q
      then some loading
      else if is_error q
      then some (failed q.failure)
      else elim q.found [ none ↦ none | some a ↦ some (body a) ]

  choose_by :
      (st : Status) (is_fetching : Bool) (found : Option A) (failure : Option Thrown) (loading : V)
      (failed : Option Thrown → V) (body : A → V)
      → let q : Query A = record {
        status = st;
        found = found;
        failure = failure;
        is_fetching = is_fetching;
      } in
        IsResult q
        → (choose q loading failed body ≡ none) ↔ ((st ≡ pending) × (is_fetching ≡ false))
  choose_by pending true found failure loading failed body r = ground arith
  choose_by pending false none failure loading failed body r = ground arith
  choose_by pending false (some a) failure loading failed body r = cc (r.no_data refl)
  choose_by error true found failure loading failed body r = ground arith
  choose_by error false found failure loading failed body r = ground arith
  choose_by success true none failure loading failed body r = cc (r.has_data refl).1
  choose_by success false none failure loading failed body r = cc (r.has_data refl).1
  choose_by success true (some a) failure loading failed body r = ground arith
  choose_by success false (some a) failure loading failed body r = ground arith

  choose_lem :
      (q : Query A) (loading : V) (failed : Option Thrown → V) (body : A → V)
      → IsResult q
      → (choose q loading failed body ≡ none) ↔ IsStuck q
  choose_lem q loading failed body r =
      choose_by q.status q.is_fetching q.found q.failure loading failed body r

-- For results as the query package documents them and valid ids, each of the pages of an article,
-- of a topic and of a match throws exactly if its query is pending and not being fetched, as it is
-- while the browser is offline.
pub pages_throw :
    (cards : Cards.Display) (d : RadarCards.Display) (message_of : Thrown → String)
    (item : Query LibraryItemDetail) (topic : Query TopicWithStats) (match : Query MatchView)
    (matches : Listing MatchView) (image_failed confirm_open is_pending saving : Bool)
    (p : Topic.Pending)
    → IsResult item
    → IsResult topic
    → IsResult match
    → ((Item.view cards false item image_failed confirm_open is_pending ≡ none) ↔ IsStuck item)
      × ((Topic.view d message_of false topic matches confirm_open p ≡ none) ↔ IsStuck topic)
      × ((Match.view d match saving ≡ none) ↔ IsStuck match)
unfolding Item.view Topic.view Match.view
pages_throw cards d message_of item topic match matches image_failed confirm_open is_pending saving
      p ri rt rm =
    (
      choose_lem item _ (Item.error_view cards)
          (λ x. Item.body cards x image_failed confirm_open is_pending) ri,
      choose_lem topic _ (Topic.error_view d message_of)
          (λ x. Topic.body d message_of x matches confirm_open p) rt,
      choose_lem match _ (Match.error_view d) (λ x. Match.body d x saving) rm,
    )
