-- ===== src/Tests/Cache.antt =====
-- The mutations on a cache with one list of articles, one article, the topics and the feeds.
use linktheca.Prelude.{◌≡◌, ◌⊎◌, refl, false, none, some, [], ◌∷◌}
use linktheca.Web.Http.{Host, Thrown, response}
use linktheca.Web.App.{ok, err}
use linktheca.Cache.Keys.{Key}
use linktheca.Cache.Interface.{Data, library_list, library_item, topics, topic, feeds}
use linktheca.Cache.Assoc.{assoc, Entries}
use linktheca.Library.Types.{LibraryItem, ListPage, read}
use linktheca.Library.LibraryKeys
use linktheca.Library.Requests.{UpdateInput}
use linktheca.Library.Mutations.{on_mutate}
use linktheca.Library.Mutations.Optimistic.{expected, get-on_mutate}
use linktheca.Library.Mutations.Run.{use_update_item, use_update_item_lem}
use linktheca.Radar.RadarKeys
use linktheca.Radar.Requests.{UpdateTopicInput}
use linktheca.Radar.Mutations
use linktheca.Radar.Mutations.Invalidation.{Marked, on_global_feeds_changed_lem}
use linktheca.Radar.Mutations.Run.{
  Settled, use_update_topic, use_update_topic_lem, use_toggle_subscription,
  use_toggle_subscription_lem,
}
use linktheca.Tests.Fixtures.{
  host, reply, fresh, article, topic_4, feed_5, platform, library_schemas, radar_schemas,
}

abbrev page : ListPage
page = record { items = article ∷ []; total = 1 }

abbrev list_key : Key
list_key = LibraryKeys.list (record { state = none; favorite = none })

abbrev entry : Key → Data → linktheca.Cache.Assoc.Entry
entry k d = record { key = k; value = d; invalid = false }

abbrev cache : Entries
cache =
    entry list_key (library_list (record { pages = page ∷ []; page_params = 0 ∷ [] }))
    ∷ entry (LibraryKeys.item 3) (library_item article)
    ∷ entry RadarKeys.topics (topics (topic_4 ∷ []))
    ∷ entry (RadarKeys.topic 4) (topic topic_4)
    ∷ entry RadarKeys.feeds (feeds (feed_5 ∷ []))
    ∷ []

abbrev mark_read : UpdateInput
mark_read = record { state = some read; is_favorite = none; note = none }

get-on_mutate_example :
    assoc.get_query_data (on_mutate assoc 3 mark_read cache).0 list_key
    ≡ expected 3 mark_read list_key (assoc.get_query_data cache list_key)
get-on_mutate_example = get-on_mutate assoc 3 mark_read cache list_key

abbrev refusing : Host
refusing = host (response (reply 500 none) ∷ [])

use_update_item_lem_example :
    (let (r, d, after) =
        use_update_item assoc refusing platform library_schemas 3 mark_read cache (fresh none) in
      ((e : Thrown) × ((r ≡ err e)
          × (assoc.get_query_data d list_key ≡ assoc.get_query_data cache list_key)))
      ⊎ ((it : LibraryItem) × ((r ≡ ok it)
            × (assoc.get_query_data d list_key
                ≡ assoc.get_query_data (on_mutate assoc 3 mark_read cache).0 list_key))))
use_update_item_lem_example =
    use_update_item_lem assoc refusing platform library_schemas 3 mark_read cache list_key
      (fresh none)

abbrev pause : UpdateTopicInput
pause = record { name = none; description = none; match_threshold = none; is_active = some false }

on_global_feeds_changed_lem_example :
    Marked assoc
      (Mutations.on_global_feeds_changed assoc cache)
      RadarKeys.feeds
      (feeds (feed_5 ∷ []))
on_global_feeds_changed_lem_example =
    on_global_feeds_changed_lem assoc cache RadarKeys.feeds (feeds (feed_5 ∷ [])) refl refl

use_update_topic_lem_example :
    (let (r, final, after) =
        use_update_topic assoc refusing platform radar_schemas 4 pause cache (fresh none) in
      Settled assoc refusing platform radar_schemas r cache
        (Mutations.on_mutate assoc 4 pause cache).0
        final
        RadarKeys.topics)
use_update_topic_lem_example =
    use_update_topic_lem assoc refusing platform radar_schemas 4 pause cache RadarKeys.topics
      (fresh none)

use_toggle_subscription_lem_example :
    (let (r, final, after) =
        use_toggle_subscription assoc refusing platform radar_schemas 5 false cache (fresh none) in
      Settled assoc refusing platform radar_schemas r cache
        (Mutations.on_toggle assoc 5 false cache).0
        final
        RadarKeys.feeds)
use_toggle_subscription_lem_example =
    use_toggle_subscription_lem assoc refusing platform radar_schemas 5 false cache RadarKeys.feeds
      (fresh none)
