-- ===== src/Radar/Inbox/Page.antt =====
-- The pages of the inbox and of the topics: web/src/routes/radar._index.tsx and
-- web/src/routes/radar.topics._index.tsx.
use linktheca.Prelude.{
  ℕ, String, Bool, true, false, not, ◌&&◌, Option, List, [], ◌∷◌, ◌++◌, append, length, filter,
  nullish, ltb, ◌==◌, nat_eq, if◌then◌else◌,
}
use linktheca.Web.Http.{Thrown}
use linktheca.Web.Date.{Date}
use linktheca.Web.Number.{to_string}
use linktheca.Web.View.{View, heading, text, link, button, skeletons}
use linktheca.Web.Query.{Query, is_loading, is_success, has_code}
use linktheca.Web.Query.Listing.{Listing, region, message}
use linktheca.Radar.Types.{InboxState, InboxFilters, MatchView, TopicWithStats}
use linktheca.Radar.Inbox.{choose_state, choose_all_topics, choose_topic, visible_topics}
use linktheca.Radar.Cards.{
  Display, match_grid, match_grid_skeleton, topic_grid, radar_disabled, empty_inbox,
  empty_topic_matches, empty_topic_list,
}

pub data Click : Type 0 where
  filter_by : InboxFilters → Click
  add_topic retry load_more : Click

-- InboxFilterBar.tsx: the states, then the topics' chips with their new matches.
abbrev state_button : InboxFilters → String → InboxState → View Click
state_button f label s = button label false (filter_by (choose_state f s)) ∷ []

abbrev chip_label : String → ℕ → String
chip_label name count = if ltb 0 count then append name (to_string count) else name

abbrev pub chips : InboxFilters → List TopicWithStats → View Click
chips f [] = []
chips f (t ∷ ts) =
    button (chip_label t.name t.stats.new_count) false (filter_by (choose_topic f t.id))
    ∷ chips f ts

unfoldable filter_bar : InboxFilters → List TopicWithStats → View Click
filter_bar f topics =
    state_button f "New" InboxState.new
    ++ (state_button f "All" InboxState.all
        ++ (button "All topics" false (filter_by (choose_all_topics f))
            ∷ chips f (visible_topics topics f.topic_id)))

module _ (d : Display) (message_of : Thrown → String) (fmt_sweep : Option Date → String) where
  abbrev empty_list : InboxFilters → View Click
  empty_list f = elim f.state [
    | InboxState.new ↦ empty_inbox
    | InboxState.all ↦ empty_topic_matches
  ]

  -- `topics.isSuccess && topics.data.length === 0`
  abbrev no_topics : Query (List TopicWithStats) → Bool
  no_topics topics = is_success topics && (length (nullish topics.found []) == 0)

  -- `RadarInboxRoute`, with what the status query has of the last sweep
  unfoldable pub inbox :
      InboxFilters → Query (List TopicWithStats) → Option Date → Listing MatchView → View Click
  unfolding filter_bar
  inbox f topics last_sweep_at matches =
      if has_code "radar_disabled" topics.failure
      then radar_disabled
      else heading "Radar"
        ∷ text (fmt_sweep last_sweep_at)
        ∷ link "/radar/topics" "Topics"
        ∷ link "/radar/sources" "Sources"
        ∷ (if no_topics topics
            then empty_topic_list add_topic
            else filter_bar f (nullish topics.found [])
              ++ region (match_grid_skeleton 6)
                  (message message_of "Failed to load matches" matches.error) retry (empty_list f)
                  (match_grid d true) load_more matches)

-- `ActiveSection` and `PausedSection`
abbrev pub section : Display → String → List TopicWithStats → View Click
section d label [] = []
section d label (t ∷ ts) =
    text label ∷ text (append (to_string (length (t ∷ ts))) " topics") ∷ topic_grid d (t ∷ ts)

abbrev sections : Display → List TopicWithStats → View Click
sections d topics =
    section d "On the radar" (filter (λ t. t.is_active) topics)
    ++ section d "Paused" (filter (λ t. not t.is_active) topics)

-- What the topics' page shows of the topics.
abbrev topics_body : Display → List TopicWithStats → View Click
topics_body d [] = empty_topic_list add_topic
topics_body d (t ∷ ts) = sections d (t ∷ ts)

-- `TopicsListRoute`
unfoldable pub topics_list : Display → Query (List TopicWithStats) → View Click
topics_list d topics =
    if has_code "radar_disabled" topics.failure
    then radar_disabled
    else heading "Topics"
      ∷ text "Everything on your radar"
      ∷ link "/radar" "← Back to inbox"
      ∷ button "+ New topic" false add_topic
      ∷ ((if is_loading topics then skeletons 4 else [])
          ++ (if is_success topics then topics_body d (nullish topics.found []) else []))
