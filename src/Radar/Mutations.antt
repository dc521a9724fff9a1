-- ===== src/Radar/Mutations.antt =====
-- web/src/features/radar/use-mutations.tsx and web/src/features/admin/use-admin-feeds.tsx: what the
-- mutations do to the query cache.
pub mod Rollback
pub mod Invalidation
pub mod Run
use linktheca.Prelude.{ℕ, Bool, Option, none, some, List, map, ◌==◌, nat_eq, nullish, if◌then◌else◌}
use linktheca.Cache.Interface.{Data, topics, topic, feeds, QueryClient}
use linktheca.Radar.Types.{TopicWithStats, FeedListItem}
use linktheca.Radar.RadarKeys
use linktheca.Radar.Requests.{UpdateTopicInput}

unfoldable pub patch_topic : TopicWithStats → UpdateTopicInput → TopicWithStats
patch_topic t input = record t {
  topic = record t.topic {
    name = nullish input.name t.name;
    description = nullish input.description t.description;
    match_threshold = nullish input.match_threshold t.match_threshold;
    is_active = nullish input.is_active t.is_active;
  };
}

abbrev pub patch_topics : ℕ → UpdateTopicInput → List TopicWithStats → List TopicWithStats
patch_topics id input ts = map (λ t. if t.id == id then patch_topic t input else t) ts

abbrev pub set_subscribed : ℕ → Bool → List FeedListItem → List FeedListItem
set_subscribed feed_id subscribed fs =
    map (λ f. if f.id == feed_id then record f { subscribed = subscribed } else f) fs

abbrev pub as_topics : Option Data → Option (List TopicWithStats)
as_topics (some (topics ts)) = some ts
as_topics _ = none

abbrev pub as_topic : Option Data → Option TopicWithStats
as_topic (some (topic t)) = some t
as_topic _ = none

abbrev pub as_feeds : Option Data → Option (List FeedListItem)
as_feeds (some (feeds fs)) = some fs
as_feeds _ = none

pub record RollbackCtx : Type 0 where
  pub previous_topics : Option (List TopicWithStats)
  pub previous_topic : Option TopicWithStats

abbrev pub patched {ℓ} : {A : Type ℓ} → (A → A) → Option A → Option A
patched f none = none
patched f (some a) = some (f a)

module _ (qc : QueryClient) where
  open qc use {
    Cache, get_query_data, set_query_data, cancel_queries, invalidate_queries, remove_queries,
  }

  abbrev pub set_topics : Option (List TopicWithStats) → Cache → Cache
  set_topics none c = c
  set_topics (some ts) c = set_query_data c RadarKeys.topics (some (topics ts))

  abbrev pub set_topic : ℕ → Option TopicWithStats → Cache → Cache
  set_topic id none c = c
  set_topic id (some t) c = set_query_data c (RadarKeys.topic id) (some (topic t))

  abbrev pub set_feeds : Option (List FeedListItem) → Cache → Cache
  set_feeds none c = c
  set_feeds (some fs) c = set_query_data c RadarKeys.feeds (some (feeds fs))

  -- `useUpdateTopic`
  unfoldable pub on_mutate : ℕ → UpdateTopicInput → Cache → Cache × RollbackCtx
  on_mutate id input before =
      let c = cancel_queries before RadarKeys.topics in
      let ctx : RollbackCtx = record {
        previous_topics = as_topics (get_query_data c RadarKeys.topics);
        previous_topic = as_topic (get_query_data c (RadarKeys.topic id));
      } in
      let d = set_topics (patched (patch_topics id input) ctx.previous_topics) c in
      (set_topic id (patched (λ t. patch_topic t input) ctx.previous_topic) d, ctx)

  unfoldable pub on_error : ℕ → RollbackCtx → Cache → Cache
  on_error id ctx c = set_topic id ctx.previous_topic (set_topics ctx.previous_topics c)

  unfoldable pub on_settled : ℕ → Cache → Cache
  on_settled id c = invalidate_queries (invalidate_queries c (RadarKeys.topic id)) RadarKeys.topics

  -- `useCreateTopic`
  unfoldable on_created : Cache → Cache
  on_created c = invalidate_queries c RadarKeys.topics

  -- `useDeleteTopic`
  unfoldable pub on_topic_deleted : ℕ → Cache → Cache
  on_topic_deleted id c =
      invalidate_queries
        (remove_queries (remove_queries c (RadarKeys.topic id)) RadarKeys.all_matches)
        RadarKeys.topics

  -- `useMarkMatchSeen`
  unfoldable pub on_seen : ℕ → Cache → Cache
  on_seen id c =
      invalidate_queries
        (invalidate_queries (invalidate_queries c (RadarKeys.match id)) RadarKeys.all_matches)
        RadarKeys.topics

  -- `useToggleSubscription`
  unfoldable pub on_toggle : ℕ → Bool → Cache → Cache × Option (List FeedListItem)
  on_toggle feed_id subscribed before =
      let c = cancel_queries before RadarKeys.feeds in
      let previous = as_feeds (get_query_data c RadarKeys.feeds) in
      (set_feeds (patched (set_subscribed feed_id subscribed) previous) c, previous)

  unfoldable pub on_toggle_error : Option (List FeedListItem) → Cache → Cache
  on_toggle_error previous c = set_feeds previous c

  -- `useToggleSubscription` at its end, `useAddFeed`, `useUpdateFeed`, `useDeleteFeed`
  unfoldable pub on_feeds_changed : Cache → Cache
  on_feeds_changed c = invalidate_queries c RadarKeys.feeds

  -- `useAddGlobalFeed`, `useUpdateGlobalFeed`, `useDeleteGlobalFeed`
  unfoldable pub on_global_feeds_changed : Cache → Cache
  on_global_feeds_changed c =
      invalidate_queries (invalidate_queries c RadarKeys.admin_feeds) RadarKeys.feeds
