-- ===== src/Radar/TopicPage.antt =====
-- The page of a topic: web/src/routes/radar.topics.$topicId.tsx and
-- web/src/features/radar/components/DeleteTopicConfirm.tsx.
use linktheca.Prelude.{
  String, Bool, true, false, not, Option, none, some, List, [], ◌∷◌, ◌++◌, append, length,
  if◌then◌else◌,
}
use linktheca.Web.Http.{Thrown}
use linktheca.Web.App.{Effect, toast_success, toast_error, navigate, Result, ok, err}
use linktheca.Web.Number.{to_string}
use linktheca.Web.View.{View, heading, text, link, button, skeleton}
use linktheca.Web.Query.{Query, is_loading, is_error, is_not_found}
use linktheca.Web.Query.Listing.{Listing, region, message}
use linktheca.Radar.Types.{MatchView, Topic, TopicWithStats}
use linktheca.Radar.Requests.{UpdateTopicInput}
use linktheca.Radar.Cards.{
  Display, topic_header, stats_line, match_grid, match_grid_skeleton, empty_topic_matches,
}

pub data Click : Type 0 where
  edit toggle_pause delete load_more retry confirm cancel : Click

-- `onTogglePause`: the update, and what the user is told at its end.
unfoldable toggle_input : TopicWithStats → UpdateTopicInput
toggle_input t = record {
  name = none;
  description = none;
  match_threshold = none;
  is_active = some (not t.is_active);
}

unfoldable toggle_told : Result Topic → List Effect
toggle_told (ok _) = []
toggle_told (err _) = toast_error "Could not update — please try again" ∷ []

-- `onDeleteConfirmed`
unfoldable delete_told : Result (Unit {0}) → List Effect
delete_told (ok _) = toast_success "Topic deleted" ∷ navigate "/radar" false ∷ []
delete_told (err _) = toast_error "Could not delete — please try again" ∷ []

-- DeleteTopicConfirm.tsx
unfoldable pub delete_confirm : Bool → String → Bool → View Click
delete_confirm false topic_name pending = []
delete_confirm true topic_name pending =
    heading (append "Delete topic “" (append topic_name "”?"))
    ∷ text "All matches for this topic will be removed. Findings are kept."
    ∷ button "Cancel" pending cancel
    ∷ button (if pending then "Deleting…" else "Delete") pending confirm
    ∷ []

pub record Pending : Type 0 where
  pub update : Bool
  pub del : Bool

module _ (d : Display) (message_of : Thrown → String) where
  unfoldable pub body : TopicWithStats → Listing MatchView → Bool → Pending → View Click
  unfolding delete_confirm
  body t matches delete_open p =
      link "/radar" "← Back to radar"
      ∷ (topic_header d t edit toggle_pause delete p.update
          ++ (stats_line d t
              ++ (text "Found entries"
                  ∷ text (append (to_string (length matches.items)) " shown")
                  ∷ (region (match_grid_skeleton 3)
                        (message message_of "Failed to load matches" matches.error) retry
                        empty_topic_matches (match_grid d false) load_more matches
                      ++ delete_confirm delete_open t.name p.del))))

  unfoldable pub error_view : Option Thrown → View Click
  error_view failure =
      if is_not_found failure
      then heading "Topic not found" ∷ link "/radar" "← Back to radar" ∷ []
      else text "Couldn’t load this topic." ∷ []

  -- With the test `Number.isNaN(id) || id <= 0`. `none` is a render that reads a property of
  -- `undefined`, and throws.
  unfoldable pub view :
      Bool → Query TopicWithStats → Listing MatchView → Bool → Pending → Option (View Click)
  unfolding body error_view
  view invalid topic matches delete_open p =
      if invalid
      then some (text "Invalid topic id." ∷ [])
      else if is_loading topic
      then some (skeleton "Loading topic" ∷ [])
      else if is_error topic
      then some (error_view topic.failure)
      else elim topic.found [ none ↦ none | some t ↦ some (body t matches delete_open p) ]
