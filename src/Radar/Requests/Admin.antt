-- ===== src/Radar/Requests/Admin.antt =====
-- web/src/features/admin/api.ts: the requests of the administrator for the shared feeds.
use linktheca.Prelude.{ℕ, List, map, append, some, none}
use linktheca.Web.Http.{Host, no_init}
use linktheca.Web.App.{App, pure, ◌>>=◌}
use linktheca.Web.Number.{to_string}
use linktheca.Web.Schema.{Platform, parse_in_dev}
use linktheca.Api.Client.{api_fetch}
use linktheca.Library.Requests.{method}
use linktheca.Radar.Types.{FeedListItem}
use linktheca.Radar.Schemas.{map_feed_list_item}
use linktheca.Radar.Requests.{
  Schemas, AddFeedInput, UpdateFeedInput, add_feed_body, update_feed_body,
}

module _ (h : Host) (platform : Platform) (schemas : Schemas) where
  unfoldable list_global_feeds : App (List FeedListItem)
  list_global_feeds = do
    raw ← api_fetch h "/admin/radar/feeds?limit=100" no_init
    parsed ← parse_in_dev platform schemas.raw_feed_list raw
    pure (map (map_feed_list_item platform.new_date) parsed.items)

  unfoldable add_global_feed : AddFeedInput → App (Unit {0})
  add_global_feed input = do
    _ ← api_fetch h "/admin/radar/feeds" (method "POST" (some (add_feed_body input)))
    pure tt

  unfoldable update_global_feed : ℕ → UpdateFeedInput → App (Unit {0})
  update_global_feed id input = do
    _ ←
        api_fetch h (append "/admin/radar/feeds/" (to_string id))
          (method "PATCH" (some (update_feed_body input)))
    pure tt

  unfoldable delete_global_feed : ℕ → App (Unit {0})
  delete_global_feed id = do
    _ ← api_fetch h (append "/admin/radar/feeds/" (to_string id)) (method "DELETE" none)
    pure tt
