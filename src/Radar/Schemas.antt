-- ===== src/Radar/Schemas.antt =====
-- web/src/features/radar/schemas.ts: from the server's words to the client's.
use linktheca.Prelude.{ℕ, String, Bool, Option, List, map, truthy}
use mathlib.Core.Option
use linktheca.Web.Json.{Decimal}
use linktheca.Web.Date.{Date}
use linktheca.Library.Schemas.{nn}
use linktheca.Radar.Types.{
  MatchState, Topic, TopicWithStats, MatchFinding, MatchView, MatchList, TopicPreview, RadarStatus,
  FeedListItem,
}

pub record RawTopicStats : Type 0 where
  pub new_count : ℕ
  pub total_count : ℕ
  pub source_count : ℕ
  pub last_match_at : Option String

pub record RawTopic : Type 0 where
  pub id : ℕ
  pub user_id : ℕ
  pub name : String
  pub description : String
  pub match_threshold : Decimal
  pub is_active : Bool
  pub has_embedding : Bool
  pub created_at : String
  pub updated_at : String

pub record RawTopicWithStats : Type 0 where
  pub topic : RawTopic
  pub stats : RawTopicStats

pub record RawMatchFinding : Type 0 where
  pub id : ℕ
  pub feed_id : ℕ
  pub feed_title : Option String
  pub url : String
  pub title : Option String
  pub summary : Option String
  pub published_at : Option String
  pub discovered_at : String

pub record RawMatchView : Type 0 where
  pub id : ℕ
  pub topic_id : ℕ
  pub topic_name : String
  pub similarity : Decimal
  pub state : MatchState
  pub matched_at : String
  pub finding : RawMatchFinding

pub record RawMatchList : Type 0 where
  pub items : List RawMatchView
  pub total : ℕ

pub record RawPreviewMatch : Type 0 where
  pub similarity : Decimal
  pub finding : RawMatchFinding

pub record RawTopicPreview : Type 0 where
  pub items : List RawPreviewMatch
  pub threshold : Decimal

pub record RawTopicsList : Type 0 where
  pub items : List RawTopicWithStats

pub record RawRadarStatus : Type 0 where
  pub last_sweep_at : Option String
  pub max_user_feeds : Option ℕ

pub record RawFeedListItem : Type 0 where
  pub id : ℕ
  pub url : String
  pub kind : String
  pub title : Option (Option String)
  pub fetch_interval_seconds : ℕ
  pub is_active : Bool
  pub last_fetched_at : Option (Option String)
  pub last_error : Option (Option String)
  pub created_at : String
  pub subscribed : Bool
  pub finding_count : ℕ
  pub is_own : Bool

pub record RawFeedList : Type 0 where
  pub items : List RawFeedListItem
  pub total : ℕ

-- Of the answer's feed the client reads nothing.
pub record RawAddFeedResult : Type 0 where
  pub created : Bool

module _ (new_date : String → Date) where
  -- `s ? new Date(s) : null`
  abbrev date_or_null : Option String → Option Date
  date_or_null s = Option.map new_date (truthy s)

  unfoldable pub map_topic : RawTopic → Topic
  map_topic raw = record {
    id = raw.id;
    user_id = raw.user_id;
    name = raw.name;
    description = raw.description;
    match_threshold = raw.match_threshold;
    is_active = raw.is_active;
    has_embedding = raw.has_embedding;
    created_at = new_date raw.created_at;
    updated_at = new_date raw.updated_at;
  }

  unfoldable pub map_topic_with_stats : RawTopicWithStats → TopicWithStats
  map_topic_with_stats raw = record {
    topic = map_topic raw.topic;
    stats = record {
      new_count = raw.stats.new_count;
      total_count = raw.stats.total_count;
      source_count = raw.stats.source_count;
      last_match_at = date_or_null raw.stats.last_match_at;
    };
  }

  unfoldable pub map_match_finding : RawMatchFinding → MatchFinding
  map_match_finding raw = record {
    id = raw.id;
    feed_id = raw.feed_id;
    feed_title = raw.feed_title;
    url = raw.url;
    title = raw.title;
    summary = raw.summary;
    published_at = date_or_null raw.published_at;
    discovered_at = new_date raw.discovered_at;
  }

  unfoldable pub map_match_view : RawMatchView → MatchView
  map_match_view raw = record {
    id = raw.id;
    topic_id = raw.topic_id;
    topic_name = raw.topic_name;
    similarity = raw.similarity;
    state = raw.state;
    matched_at = new_date raw.matched_at;
    finding = map_match_finding raw.finding;
  }

  unfoldable pub map_topic_preview : RawTopicPreview → TopicPreview
  map_topic_preview raw = record {
    items =
        map (λ i. record { similarity = i.similarity; finding = map_match_finding i.finding })
          raw.items;
    threshold = raw.threshold;
  }

  unfoldable pub map_match_list : RawMatchList → MatchList
  map_match_list raw = record { items = map map_match_view raw.items; total = raw.total }

  unfoldable pub map_radar_status : RawRadarStatus → RadarStatus
  map_radar_status raw = record {
    last_sweep_at = date_or_null raw.last_sweep_at;
    max_user_feeds = raw.max_user_feeds;
  }

  unfoldable pub map_feed_list_item : RawFeedListItem → FeedListItem
  map_feed_list_item raw = record {
    id = raw.id;
    url = raw.url;
    kind = raw.kind;
    title = nn raw.title;
    fetch_interval_seconds = raw.fetch_interval_seconds;
    is_active = raw.is_active;
    last_fetched_at = date_or_null (nn raw.last_fetched_at);
    last_error = nn raw.last_error;
    created_at = new_date raw.created_at;
    subscribed = raw.subscribed;
    finding_count = raw.finding_count;
    is_own = raw.is_own;
  }
