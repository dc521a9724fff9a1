-- ===== src/Radar/Mutations/Run.antt =====
-- The optimistic mutations of web/src/features/radar/use-mutations.tsx from the click to the end.
use linktheca.Prelude.{ℕ, ◌≡◌, ◌⊎◌, refl, ◌∙◌, Bool, Option, List, inl, inr, if◌then◌else◌}
use linktheca.Web.Http.{Host, Thrown}
use linktheca.Web.App.{World, Result, ok, err}
use linktheca.Web.Schema.{Platform}
use linktheca.Cache.Keys.{Key}
use linktheca.Cache.Interface.{QueryClient}
use linktheca.Radar.Types.{Topic, FeedListItem}
use linktheca.Radar.RadarKeys
use linktheca.Radar.Requests.{
  UpdateTopicInput, Schemas, update_topic, subscribe_feed, unsubscribe_feed,
}
use linktheca.Radar.Mutations.{
  RollbackCtx, on_mutate, on_error, on_settled, on_toggle, on_toggle_error, on_feeds_changed,
}
use linktheca.Radar.Mutations.Rollback.{on_mutate_lem, on_toggle_lem}

module _ (qc : QueryClient) (h : Host) (platform : Platform) (schemas : Schemas) where
  open qc use {Cache, get_query_data, get-invalidate}

  -- `onError` runs if the request was refused.
  abbrev if_refused {ℓ} : {A : Type ℓ} → (Cache → Cache) → Result A → Cache → Cache
  if_refused f (ok a) c = c
  if_refused f (err e) c = f c

  -- `useUpdateTopic().mutate({ id, input })`
  unfoldable pub use_update_topic :
      ℕ → UpdateTopicInput → Cache → World → Result Topic × Cache × World
  use_update_topic id input c w =
      let (patched, ctx) = on_mutate qc id input c in
      let (result, after) = update_topic h platform schemas id input w in
      (result, on_settled qc id (if_refused (on_error qc id ctx) result patched), after)

  -- `useToggleSubscription().mutate({ feedId, subscribed })`
  unfoldable pub use_toggle_subscription :
      ℕ → Bool → Cache → World → Result (Unit {0}) × Cache × World
  use_toggle_subscription feed_id subscribed c w =
      let (patched, previous) = on_toggle qc feed_id subscribed c in
      let (result, after) =
        (if subscribed
            then subscribe_feed h platform schemas feed_id
            else unsubscribe_feed h platform schemas feed_id)
          w in
      (result, on_feeds_changed qc (if_refused (on_toggle_error qc previous) result patched), after)

  get-on_settled :
      (id : ℕ) (c : Cache) (k : Key) → get_query_data (on_settled qc id c) k ≡ get_query_data c k
  unfolding on_settled
  get-on_settled id c k =
      get-invalidate _ RadarKeys.topics k ∙ get-invalidate c (RadarKeys.topic id) k

  get-on_feeds_changed :
      (c : Cache) (k : Key) → get_query_data (on_feeds_changed qc c) k ≡ get_query_data c k
  unfolding on_feeds_changed
  get-on_feeds_changed c k = get-invalidate c RadarKeys.feeds k

  -- Refused, the cache reads as `c`; accepted, as `d`.
  abbrev pub Settled {ℓ} : {A : Type ℓ} → Result A → Cache → Cache → Cache → Key → Type ℓ
  Settled {A = A} r c d final k =
      ((e : Thrown) × ((r ≡ err e) × (get_query_data final k ≡ get_query_data c k)))
      ⊎ ((a : A) × ((r ≡ ok a) × (get_query_data final k ≡ get_query_data d k)))

  module _ (id : ℕ) (input : UpdateTopicInput) (c : Cache) (k : Key) where
    abbrev start : Cache × RollbackCtx
    start = on_mutate qc id input c

    topic_settled :
        (r : Result Topic)
        → Settled r c start.0 (on_settled qc id (if_refused (on_error qc id start.1) r start.0)) k
    topic_settled (err e) =
        inl (e, (refl, get-on_settled id _ k ∙ (on_mutate_lem qc id input c k).1))
    topic_settled (ok t) = inr (t, (refl, get-on_settled id _ k))

    -- An update of a topic ends in one of two ways, for every query of the cache: refused, it reads
    -- as before the update; accepted, it reads as the optimistic update left it.
    pub use_update_topic_lem :
        (w : World)
        → (let (r, final, after) = use_update_topic id input c w in
            Settled r c (on_mutate qc id input c).0 final k)
    unfolding use_update_topic
    use_update_topic_lem w = topic_settled (update_topic h platform schemas id input w).0

  module _ (feed_id : ℕ) (subscribed : Bool) (c : Cache) (k : Key) where
    abbrev toggling : Cache × Option (List FeedListItem)
    toggling = on_toggle qc feed_id subscribed c

    toggle_settled :
        (r : Result (Unit {0}))
        → Settled r c toggling.0
            (on_feeds_changed qc (if_refused (on_toggle_error qc toggling.1) r toggling.0))
            k
    toggle_settled (err e) =
        inl (e, (refl, get-on_feeds_changed _ k ∙ (on_toggle_lem qc feed_id subscribed c k).1))
    toggle_settled (ok t) = inr (t, (refl, get-on_feeds_changed _ k))

    -- A click on a subscription ends in one of two ways, for every query of the cache: refused, it
    -- reads as before the click; accepted, it reads as the optimistic change left it.
    pub use_toggle_subscription_lem :
        (w : World)
        → (let (r, final, after) = use_toggle_subscription feed_id subscribed c w in
            Settled r c (on_toggle qc feed_id subscribed c).0 final k)
    unfolding use_toggle_subscription
    use_toggle_subscription_lem w =
        toggle_settled
          ((if subscribed
              then subscribe_feed h platform schemas feed_id
              else unsubscribe_feed h platform schemas feed_id)
            w).0
