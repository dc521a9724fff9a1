-- ===== src/Radar/Types.antt =====
-- web/src/features/radar/types.ts.
use linktheca.Prelude.{ℕ, String, Bool, Option, List}
use linktheca.Web.Json.{Decimal}
use linktheca.Web.Date.{Date}
use linktheca.Web.Paging.{Page}

pub data MatchState : Type 0 where
  new seen : MatchState

pub record TopicStats : Type 0 where
  pub new_count : ℕ
  pub total_count : ℕ
  pub source_count : ℕ
  pub last_match_at : Option Date

pub record Topic : Type 0 where
  pub id : ℕ
  pub user_id : ℕ
  pub name : String
  pub description : String
  pub match_threshold : Decimal
  pub is_active : Bool
  pub has_embedding : Bool
  pub created_at : Date
  pub updated_at : Date

pub record TopicWithStats : Type 0 where
  pub topic : Topic
  pub open topic use *
  pub stats : TopicStats

pub record MatchFinding : Type 0 where
  pub id : ℕ
  pub feed_id : ℕ
  pub feed_title : Option String
  pub url : String
  pub title : Option String
  pub summary : Option String
  pub published_at : Option Date
  pub discovered_at : Date

pub record MatchView : Type 0 where
  pub id : ℕ
  pub topic_id : ℕ
  pub topic_name : String
  pub similarity : Decimal
  pub state : MatchState
  pub matched_at : Date
  pub finding : MatchFinding

abbrev pub MatchList : Type 0
MatchList = Page MatchView

pub record PreviewMatch : Type 0 where
  pub similarity : Decimal
  pub finding : MatchFinding

pub record TopicPreview : Type 0 where
  pub items : List PreviewMatch
  pub threshold : Decimal

pub record RadarStatus : Type 0 where
  pub last_sweep_at : Option Date
  pub max_user_feeds : Option ℕ

pub record MatchFilters : Type 0 where
  pub topic_id : Option ℕ
  pub state : Option MatchState

pub data InboxState : Type 0 where
  new all : InboxState

pub record InboxFilters : Type 0 where
  pub state : InboxState
  pub topic_id : Option ℕ

abbrev pub page_size : ℕ
page_size = 20

pub record FeedListItem : Type 0 where
  pub id : ℕ
  pub url : String
  pub kind : String
  pub title : Option String
  pub fetch_interval_seconds : ℕ
  pub is_active : Bool
  pub last_fetched_at : Option Date
  pub last_error : Option String
  pub created_at : Date
  pub subscribed : Bool
  pub finding_count : ℕ
  pub is_own : Bool
