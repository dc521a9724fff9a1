-- ===== src/Radar/Mutations/Invalidation.antt =====
-- Which queries the mutations of the radar ask for again.
use linktheca.Prelude.{ℕ, ◌≡◌, ◌∙◌, true, ◌||◌, none, some, arith, if◌then◌else◌}
use linktheca.Cache.Keys.{Key, is_prefix}
use linktheca.Cache.Interface.{Data, QueryClient}
use linktheca.Radar.RadarKeys
use linktheca.Radar.Mutations.{on_seen, on_topic_deleted, on_global_feeds_changed}

module _ (qc : QueryClient) where
  open qc use {
    Cache, get_query_data, is_invalidated, invalidate_queries, remove_queries, get-invalidate,
    get-remove, invalidate_marks, invalidate_keeps,
  }

  -- The query is marked, and still holds what it held.
  abbrev pub Marked : Cache → Key → Data → Type 0
  Marked c k d = (is_invalidated c k ≡ true) × (get_query_data c k ≡ some d)

  two_marks :
      (p q : Key) (c : Cache) (k : Key) (d : Data)
      → get_query_data c k ≡ some d
      → (is_prefix p k || is_prefix q k) ≡ true
      → Marked (invalidate_queries (invalidate_queries c p) q) k d
  two_marks p q c k d e h =
      let first = get-invalidate c p k ∙ e in
      ground (
        arith,
        invalidate_marks c p k d e,
        invalidate_marks (invalidate_queries c p) q k d first,
        invalidate_keeps (invalidate_queries c p) q k,
        get-invalidate (invalidate_queries c p) q k,
      )

  module _ (c : Cache) (k : Key) (d : Data) where
    -- After a change of the shared feeds, every query of the feeds, of the administrator or of the
    -- radar, that holds data is marked as out of date and still holds the data.
    pub on_global_feeds_changed_lem :
        get_query_data c k ≡ some d
        → (is_prefix RadarKeys.admin_feeds k || is_prefix RadarKeys.feeds k) ≡ true
        → Marked (on_global_feeds_changed qc c) k d
    unfolding on_global_feeds_changed
    on_global_feeds_changed_lem e h = two_marks RadarKeys.admin_feeds RadarKeys.feeds c k d e h

    -- A query that a seen match may change and that holds data is marked, and still holds it.
    on_seen_lem :
        (id : ℕ)
        → get_query_data c k ≡ some d
        → (is_prefix (RadarKeys.match id) k
            || (is_prefix RadarKeys.all_matches k || is_prefix RadarKeys.topics k))
          ≡ true
        → Marked (on_seen qc id c) k d
    unfolding on_seen
    on_seen_lem id e h =
        let c1 = invalidate_queries c (RadarKeys.match id) in
        let c2 = invalidate_queries c1 RadarKeys.all_matches in
        ground (
          arith,
          invalidate_marks c (RadarKeys.match id) k d e,
          invalidate_keeps c1 RadarKeys.all_matches k,
          invalidate_keeps c2 RadarKeys.topics k,
          two_marks RadarKeys.all_matches RadarKeys.topics c1 k d
              (get-invalidate c (RadarKeys.match id) k ∙ e),
          get-invalidate c (RadarKeys.match id) k ∙ e,
          get-invalidate c1 RadarKeys.all_matches k,
          get-invalidate c2 RadarKeys.topics k,
        )

  -- After the deletion of a topic its query and all lists of matches are gone, and no other.
  get-on_topic_deleted :
      (id : ℕ) (c : Cache) (k : Key)
      → get_query_data (on_topic_deleted qc id c) k ≡ (
          if is_prefix (RadarKeys.topic id) k || is_prefix RadarKeys.all_matches k
          then none
          else get_query_data c k)
  unfolding on_topic_deleted
  get-on_topic_deleted id c k = ground (
    arith,
    get-invalidate (remove_queries (remove_queries c (RadarKeys.topic id)) RadarKeys.all_matches)
        RadarKeys.topics k,
    get-remove (remove_queries c (RadarKeys.topic id)) RadarKeys.all_matches k,
    get-remove c (RadarKeys.topic id) k,
  )
