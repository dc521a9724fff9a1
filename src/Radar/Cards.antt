-- ===== src/Radar/Cards.antt =====
-- The cards of a match and of a topic, and the head of a topic's page, of
-- web/src/features/radar/components.
use linktheca.Prelude.{
  ℕ, String, Bool, false, Option, List, [], ◌∷◌, ◌++◌, append, ltb, nullish, truthy, if◌then◌else◌,
}
use linktheca.Web.Date.{Date}
use linktheca.Web.Number.{to_string}
use linktheca.Web.View.{View, heading, text, link, button, skeleton, skeletons, text_of}
use linktheca.Radar.Types.{MatchView, new, seen, TopicWithStats}

-- What the cards take from elsewhere: the host of a URL, how long ago a date is, and the day of a date
-- in digits.
pub record Display : Type 0 where
  pub host : String → String
  pub relative_from_now : Date → String
  pub fmt_last_match : Option Date → String
  pub fmt_date : Date → String

module _ {E : Type 0} (d : Display) where
  -- MatchCard.tsx
  unfoldable pub match_card : Bool → MatchView → View E
  match_card show_topic m =
      let f = m.finding in
      let source = nullish f.feed_title (d.host f.url) in
      let ago = d.relative_from_now (nullish f.published_at f.discovered_at) in
      (elim m.state [ new ↦ text "new" ∷ [] | seen ↦ [] ])
      ++ ((if show_topic then text m.topic_name ∷ [] else [])
          ++ (text (append source (append " · " ago))
              ∷ link (append "/radar/matches/" (to_string m.id)) (nullish f.title (d.host f.url))
              ∷ text_of (truthy f.summary)))

  -- MatchGrid.tsx
  abbrev pub match_grid : Bool → List MatchView → View E
  match_grid show_topic [] = []
  match_grid show_topic (m ∷ ms) = match_card show_topic m ++ match_grid show_topic ms

  -- TopicCard.tsx
  unfoldable pub topic_card : TopicWithStats → View E
  topic_card t =
      (if t.is_active then [] else text "Paused" ∷ [])
      ++ (text
            (if ltb 0 t.stats.new_count then append (to_string t.stats.new_count) " new" else "—")
          ∷ link (append "/radar/topics/" (to_string t.id)) t.name
          ∷ text t.description
          ∷ text (
              append (to_string t.stats.total_count)
                (append " found · " (append (to_string t.stats.source_count) " sources")))
          ∷ text (d.fmt_last_match t.stats.last_match_at)
          ∷ [])

  -- TopicGrid.tsx
  abbrev pub topic_grid : List TopicWithStats → View E
  topic_grid [] = []
  topic_grid (t ∷ ts) = topic_card t ++ topic_grid ts

  -- StatsLine.tsx
  unfoldable pub stats_line : TopicWithStats → View E
  stats_line t =
      text (append (to_string t.stats.total_count) " found")
      ∷ text (append (to_string t.stats.new_count) " unread")
      ∷ text (append (to_string t.stats.source_count) " sources")
      ∷ text (append "created " (d.fmt_date t.created_at))
      ∷ []

  -- TopicHeader.tsx, with what its three buttons do
  unfoldable pub topic_header : TopicWithStats → E → E → E → Bool → View E
  topic_header t edit toggle_pause delete toggle_pending =
      text (if t.is_active then "Standing watch" else "Paused")
      ∷ heading t.name
      ∷ text t.description
      ∷ button "Edit" false edit
      ∷ button (if t.is_active then "Pause" else "Resume") toggle_pending toggle_pause
      ∷ button "Delete" false delete
      ∷ []

module _ {E : Type 0} where
  -- MatchGridSkeleton.tsx
  abbrev pub match_grid_skeleton : ℕ → View E
  match_grid_skeleton count = skeleton "Loading matches" ∷ skeletons count

  -- RadarDisabled.tsx, EmptyInbox.tsx, EmptyTopicMatches.tsx, and EmptyTopicList.tsx
  abbrev pub radar_disabled : View E
  radar_disabled =
      text "Radar is disabled"
      ∷ text "This Linktheca instance was started with Radar turned off."
      ∷ []

  abbrev pub empty_inbox : View E
  empty_inbox = text "Inbox zero" ∷ text "Nothing new since you last looked. Standing watch." ∷ []

  abbrev pub empty_topic_matches : View E
  empty_topic_matches =
      text "Nothing yet"
      ∷ text "Standing watch. New entries will appear here as they are found."
      ∷ []

  abbrev pub empty_topic_list : E → View E
  empty_topic_list add =
      text "Nothing on your radar yet"
      ∷ text "Add your first topic to start watching for new signals."
      ∷ button "+ New topic" false add
      ∷ []
