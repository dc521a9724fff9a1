-- ===== src/Radar/Requests.antt =====
-- web/src/features/radar/api.ts: the requests of the radar.
pub mod Admin
pub mod Contents
use linktheca.Prelude.{ℕ, String, Bool, Option, none, some, List, [], map, append}
use linktheca.Web.Json.{Json, Decimal, num, bool, str, int, obj, Fields, field, nil, optional}
use linktheca.Web.Http.{Host, no_init}
use linktheca.Web.App.{App, pure, ◌>>=◌}
use linktheca.Web.Number.{to_string}
use linktheca.Web.SearchParams.{SearchParams, set}
use linktheca.Web.Schema.{Schema, Platform, parse_in_dev}
use linktheca.Api.Client.{api_fetch}
use linktheca.Library.Requests.{method}
use linktheca.Radar.Types.{
  MatchState, new, seen, Topic, TopicWithStats, MatchList, MatchView, RadarStatus, TopicPreview,
  FeedListItem,
}
use linktheca.Radar.Schemas.{
  RawTopic, RawTopicWithStats, RawTopicsList, RawMatchList, RawMatchView, RawRadarStatus,
  RawTopicPreview, RawFeedList, RawAddFeedResult, map_topic, map_topic_with_stats, map_match_list,
  map_match_view, map_radar_status, map_topic_preview, map_feed_list_item,
}

pub record Schemas : Type 0 where
  pub raw_topics_list : Schema RawTopicsList
  pub raw_topic : Schema RawTopic
  pub raw_topic_with_stats : Schema RawTopicWithStats
  pub raw_match_list : Schema RawMatchList
  pub raw_match_view : Schema RawMatchView
  pub raw_radar_status : Schema RawRadarStatus
  pub raw_topic_preview : Schema RawTopicPreview
  pub raw_feed_list : Schema RawFeedList
  pub raw_add_feed_result : Schema RawAddFeedResult

pub record CreateTopicInput : Type 0 where
  pub name : String
  pub description : String
  pub match_threshold : Option Decimal

pub record PreviewTopicInput : Type 0 where
  pub name : String
  pub description : String

pub record UpdateTopicInput : Type 0 where
  pub name : Option String
  pub description : Option String
  pub match_threshold : Option Decimal
  pub is_active : Option Bool

pub record ListMatchesArgs : Type 0 where
  pub topic_id : Option ℕ
  pub state : Option MatchState
  pub limit : ℕ
  pub offset : ℕ

pub record AddFeedInput : Type 0 where
  pub url : String
  pub fetch_interval_seconds : ℕ

pub record UpdateFeedInput : Type 0 where
  pub title : Option String
  pub fetch_interval_seconds : Option ℕ
  pub is_active : Option Bool

abbrev pub state_name : MatchState → String
state_name new = "new"
state_name seen = "seen"

unfoldable create_topic_body : CreateTopicInput → Json
create_topic_body input = obj (
    optional "match_threshold" num input.match_threshold
      (field "name" (str input.name) (field "description" (str input.description) nil)))

unfoldable pub update_topic_body : UpdateTopicInput → Json
update_topic_body input = obj (
    optional "name" str input.name (
      optional "description" str input.description (
        optional "match_threshold" num input.match_threshold
          (optional "is_active" bool input.is_active nil))))

unfoldable pub add_feed_body : AddFeedInput → Json
add_feed_body input = obj (
    field "url" (str input.url)
      (field "fetch_interval_seconds" (int input.fetch_interval_seconds) nil))

unfoldable pub update_feed_body : UpdateFeedInput → Json
update_feed_body input = obj (
    optional "title" str input.title (
      optional "fetch_interval_seconds" int input.fetch_interval_seconds
        (optional "is_active" bool input.is_active nil)))

abbrev pub set_topic : Option ℕ → SearchParams → SearchParams
set_topic none p = p
set_topic (some id) p = set p "topic_id" (to_string id)

abbrev pub set_state : Option MatchState → SearchParams → SearchParams
set_state none p = p
set_state (some s) p = set p "state" (state_name s)

unfoldable pub build_matches_query : ListMatchesArgs → SearchParams
build_matches_query args =
    let p = set [] "limit" (to_string args.limit) in
    let p = set p "offset" (to_string args.offset) in
    set_state args.state (set_topic args.topic_id p)

module _ (h : Host) (platform : Platform) (schemas : Schemas) where
  unfoldable list_topics : App (List TopicWithStats)
  list_topics = do
    raw ← api_fetch h "/radar/topics" no_init
    parsed ← parse_in_dev platform schemas.raw_topics_list raw
    pure (map (map_topic_with_stats platform.new_date) parsed.items)

  unfoldable pub get_topic : ℕ → App TopicWithStats
  get_topic id = do
    raw ← api_fetch h (append "/radar/topics/" (to_string id)) no_init
    parsed ← parse_in_dev platform schemas.raw_topic_with_stats raw
    pure (map_topic_with_stats platform.new_date parsed)

  unfoldable create_topic : CreateTopicInput → App Topic
  create_topic input = do
    raw ← api_fetch h "/radar/topics" (method "POST" (some (create_topic_body input)))
    parsed ← parse_in_dev platform schemas.raw_topic raw
    pure (map_topic platform.new_date parsed)

  unfoldable pub preview_topic : PreviewTopicInput → App TopicPreview
  preview_topic input = do
    let body = obj (field "name" (str input.name) (field "description" (str input.description) nil))
    raw ← api_fetch h "/radar/topics/preview" (method "POST" (some body))
    parsed ← parse_in_dev platform schemas.raw_topic_preview raw
    pure (map_topic_preview platform.new_date parsed)

  unfoldable pub update_topic : ℕ → UpdateTopicInput → App Topic
  update_topic id input = do
    raw ←
        api_fetch h (append "/radar/topics/" (to_string id))
          (method "PATCH" (some (update_topic_body input)))
    parsed ← parse_in_dev platform schemas.raw_topic raw
    pure (map_topic platform.new_date parsed)

  unfoldable delete_topic : ℕ → App (Unit {0})
  delete_topic id = do
    _ ← api_fetch h (append "/radar/topics/" (to_string id)) (method "DELETE" none)
    pure tt

  unfoldable pub list_matches : ListMatchesArgs → App MatchList
  list_matches args = do
    raw ←
        api_fetch h (append "/radar/matches?" (platform.encode (build_matches_query args))) no_init
    parsed ← parse_in_dev platform schemas.raw_match_list raw
    pure (map_match_list platform.new_date parsed)

  unfoldable pub get_match : ℕ → App MatchView
  get_match id = do
    raw ← api_fetch h (append "/radar/matches/" (to_string id)) no_init
    parsed ← parse_in_dev platform schemas.raw_match_view raw
    pure (map_match_view platform.new_date parsed)

  unfoldable update_match : ℕ → MatchState → App (Unit {0})
  update_match id state = do
    let body = obj (field "state" (str (state_name state)) nil)
    _ ← api_fetch h (append "/radar/matches/" (to_string id)) (method "PATCH" (some body))
    pure tt

  unfoldable get_status : App RadarStatus
  get_status = do
    raw ← api_fetch h "/radar/status" no_init
    parsed ← parse_in_dev platform schemas.raw_radar_status raw
    pure (map_radar_status platform.new_date parsed)

  unfoldable list_feeds : App (List FeedListItem)
  list_feeds = do
    raw ← api_fetch h "/radar/feeds?limit=100" no_init
    parsed ← parse_in_dev platform schemas.raw_feed_list raw
    pure (map (map_feed_list_item platform.new_date) parsed.items)

  unfoldable pub subscribe_feed : ℕ → App (Unit {0})
  subscribe_feed feed_id = do
    _ ←
        api_fetch h "/radar/subscriptions"
          (method "POST" (some (obj (field "feed_id" (int feed_id) nil))))
    pure tt

  unfoldable pub unsubscribe_feed : ℕ → App (Unit {0})
  unsubscribe_feed feed_id = do
    _ ← api_fetch h (append "/radar/subscriptions/" (to_string feed_id)) (method "DELETE" none)
    pure tt

  -- The flag `created` of the answer.
  unfoldable add_feed : AddFeedInput → App Bool
  add_feed input = do
    raw ← api_fetch h "/radar/feeds" (method "POST" (some (add_feed_body input)))
    parsed ← parse_in_dev platform schemas.raw_add_feed_result raw
    pure parsed.created

  unfoldable update_feed : ℕ → UpdateFeedInput → App (Unit {0})
  update_feed id input = do
    _ ←
        api_fetch h (append "/radar/feeds/" (to_string id))
          (method "PATCH" (some (update_feed_body input)))
    pure tt

  unfoldable delete_feed : ℕ → App (Unit {0})
  delete_feed id = do
    _ ← api_fetch h (append "/radar/feeds/" (to_string id)) (method "DELETE" none)
    pure tt
