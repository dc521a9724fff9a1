-- ===== src/Radar/Queries.antt =====
-- The queries of web/src/features/radar/use-radar.tsx: what they ask the server for, and when.
use linktheca.Prelude.{ℕ, String, Bool, leb, ltb}
use linktheca.Web.App.{App}
use linktheca.Web.Http.{Host}
use linktheca.Web.Schema.{Platform}
use linktheca.Radar.Types.{
  MatchFilters, MatchList, MatchView, TopicWithStats, TopicPreview, page_size,
}
use linktheca.Radar.Requests.{Schemas, list_matches, get_match, get_topic, preview_topic}
use linktheca.Radar.Preview.{min_preview_description}

-- `Number.isFinite(id) && id > 0`, for a number that is not negative.
unfoldable id_enabled : ℕ → Bool
id_enabled id = ltb 0 id

-- `enabled` of `useTopicPreviewQuery`, by the length of the trimmed description.
unfoldable preview_enabled : ℕ → Bool
preview_enabled description_length = leb min_preview_description description_length

module _ (h : Host) (platform : Platform) (schemas : Schemas) where
  -- `queryFn` of `useMatchesQuery`
  unfoldable matches_query_fn : MatchFilters → ℕ → App MatchList
  matches_query_fn filters page_param = list_matches h platform schemas (record {
    topic_id = filters.topic_id;
    state = filters.state;
    limit = page_size;
    offset = page_param;
  })

  unfoldable match_query_fn : ℕ → App MatchView
  match_query_fn id = get_match h platform schemas id

  unfoldable topic_query_fn : ℕ → App TopicWithStats
  topic_query_fn id = get_topic h platform schemas id

  -- `useTopicPreviewQuery`, with the function that trims a text.
  unfoldable preview_query_fn : (String → String) → String → String → App TopicPreview
  preview_query_fn trim name description =
      preview_topic h platform schemas (record { name = trim name; description = trim description })
