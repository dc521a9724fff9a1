-- ===== src/Radar/Mutations/Rollback.antt =====
-- What a failed change of a topic or of a subscription leaves in the cache.
use linktheca.Prelude.{
  ℕ, ◌≡◌, refl, ◌∙◌, Bool, true, false, ap, Option, none, some, List, arith, if◌then◌else◌,
}
use linktheca.Cache.Keys.{Key, key_beq, key_beq_iff}
use linktheca.Cache.Interface.{Data, topics, topic, feeds, QueryClient}
use linktheca.Radar.Types.{TopicWithStats, FeedListItem}
use linktheca.Radar.RadarKeys
use linktheca.Radar.Requests.{UpdateTopicInput}
use linktheca.Radar.Mutations.{
  patched, patch_topic, patch_topics, set_subscribed, as_topics, as_topic, as_feeds, set_topics,
  set_topic, set_feeds, on_mutate, on_error, on_toggle, on_toggle_error,
}

-- What a look-up finds after the change, if the flag says that it is a look-up of the key changed.
abbrev patched_list : ℕ → UpdateTopicInput → Bool → Option Data → Option Data
patched_list id input true (some (topics ts)) = some (topics (patch_topics id input ts))
patched_list id input hit o = o

abbrev patched_topic : UpdateTopicInput → Bool → Option Data → Option Data
patched_topic input true (some (topic t)) = some (topic (patch_topic t input))
patched_topic input hit o = o

abbrev toggled : ℕ → Bool → Bool → Option Data → Option Data
toggled feed_id subscribed true (some (feeds fs)) =
    some (feeds (set_subscribed feed_id subscribed fs))
toggled feed_id subscribed hit o = o

-- The value of a key after `qc.setQueryData` was called for it, or not.
abbrev written {ℓ} : {A : Type ℓ} → (A → Data) → Option A → Bool → Option Data → Option Data
written to o hit d = if hit then elim o [ none ↦ d | some a ↦ some (to a) ] else d

written-topics :
    (id : ℕ) (input : UpdateTopicInput) (hit : Bool) (a d : Option Data)
    → (hit ≡ true → a ≡ d)
    → (written topics (patched (patch_topics id input) (as_topics a)) hit d
        ≡ patched_list id input hit d)
      × (written topics (as_topics a) hit (patched_list id input hit d) ≡ d)
written-topics id input hit a d same = (ground (arith, same), ground (arith, same))

written_topic :
    (input : UpdateTopicInput) (hit : Bool) (a d : Option Data)
    → (hit ≡ true → a ≡ d)
    → (written topic (patched (λ t. patch_topic t input) (as_topic a)) hit d
        ≡ patched_topic input hit d)
      × (written topic (as_topic a) hit (patched_topic input hit d) ≡ d)
written_topic input hit a d same = (ground (arith, same), ground (arith, same))

written-feeds :
    (id : ℕ) (subscribed hit : Bool) (a d : Option Data)
    → (hit ≡ true → a ≡ d)
    → (written feeds (patched (set_subscribed id subscribed) (as_feeds a)) hit d
        ≡ toggled id subscribed hit d)
      × (written feeds (as_feeds a) hit (toggled id subscribed hit d) ≡ d)
written-feeds id subscribed hit a d same = (ground (arith, same), ground (arith, same))

written_both :
    (id : ℕ) (input : UpdateTopicInput) (in_list is_topic : Bool) (a b d : Option Data)
    → (is_topic ≡ true → in_list ≡ false)
    → (in_list ≡ true → a ≡ d)
    → (is_topic ≡ true → b ≡ d)
    → (let first = written topics (patched (patch_topics id input) (as_topics a)) in_list d in
        let after =
          written topic (patched (λ t. patch_topic t input) (as_topic b)) is_topic first in
        (after ≡ patched_topic input is_topic (patched_list id input in_list d))
        × (written topic (as_topic b) is_topic (written topics (as_topics a) in_list after) ≡ d))
written_both id input true true a b d apart la lb = absurd (ground (arith, apart))
written_both id input true false a b d apart la lb = (
  (written-topics id input true a d la).0,
  ap (written topics (as_topics a) true) (written-topics id input true a d la).0
      ∙ (written-topics id input true a d la).1,
)
written_both id input false true a b d apart la lb = (
  (written_topic input true b d lb).0,
  ap (written topic (as_topic b) true) (written_topic input true b d lb).0
      ∙ (written_topic input true b d lb).1,
)
written_both id input false false a b d apart la lb = (ground arith, ground arith)

module _ (qc : QueryClient) where
  open qc use {Cache, get_query_data, get-set, get-cancel, cancel_queries}

  get-set_topics :
      (o : Option (List TopicWithStats)) (c : Cache) (k : Key)
      → get_query_data (set_topics qc o c) k
        ≡ written topics o (key_beq RadarKeys.topics k) (get_query_data c k)
  get-set_topics none c k = ground arith
  get-set_topics (some ts) c k = get-set c RadarKeys.topics (topics ts) k

  get-set_topic :
      (id : ℕ) (o : Option TopicWithStats) (c : Cache) (k : Key)
      → get_query_data (set_topic qc id o c) k
        ≡ written topic o (key_beq (RadarKeys.topic id) k) (get_query_data c k)
  get-set_topic id none c k = ground arith
  get-set_topic id (some t) c k = get-set c (RadarKeys.topic id) (topic t) k

  get-set_feeds :
      (o : Option (List FeedListItem)) (c : Cache) (k : Key)
      → get_query_data (set_feeds qc o c) k
        ≡ written feeds o (key_beq RadarKeys.feeds k) (get_query_data c k)
  get-set_feeds none c k = ground arith
  get-set_feeds (some fs) c k = get-set c RadarKeys.feeds (feeds fs) k

  get-set_both :
      (id : ℕ) (o : Option (List TopicWithStats)) (p : Option TopicWithStats) (c : Cache) (k : Key)
      → get_query_data (set_topic qc id p (set_topics qc o c)) k
        ≡ written topic p
            (key_beq (RadarKeys.topic id) k)
            (written topics o (key_beq RadarKeys.topics k) (get_query_data c k))
  get-set_both id o p c k =
      get-set_topic id p (set_topics qc o c) k
      ∙ ap (written topic p (key_beq (RadarKeys.topic id) k)) (get-set_topics o c k)

  same : (c : Cache) (j k : Key) → key_beq j k ≡ true → get_query_data c j ≡ get_query_data c k
  same c j k e = ap (get_query_data c) ((key_beq_iff j k).0 e)

  apart :
      (id : ℕ) (k : Key)
      → key_beq (RadarKeys.topic id) k ≡ true
      → key_beq RadarKeys.topics k ≡ false
  apart id k e = rw (← (key_beq_iff (RadarKeys.topic id) k).0 e) refl

  module _ (id : ℕ) (input : UpdateTopicInput) (before : Cache) (k : Key) where
    abbrev c : Cache
    c = cancel_queries before RadarKeys.topics

    -- After onMutate of a topic, a look-up of any key finds what it found before, but for the list
    -- of topics, in which the topic is patched, and the topic; and onError afterwards makes every
    -- look-up find what it found at first.
    pub on_mutate_lem :
        (get_query_data (on_mutate qc id input before).0 k
          ≡ patched_topic input
              (key_beq (RadarKeys.topic id) k)
              (patched_list id input (key_beq RadarKeys.topics k) (get_query_data before k)))
        × (get_query_data
              (on_error qc id (on_mutate qc id input before).1 (on_mutate qc id input before).0)
              k
            ≡ get_query_data before k)
    unfolding on_mutate on_error
    on_mutate_lem =
        let list = as_topics (get_query_data c RadarKeys.topics) in
        let one = as_topic (get_query_data c (RadarKeys.topic id)) in
        let in_list = key_beq RadarKeys.topics k in
        let is_topic = key_beq (RadarKeys.topic id) k in
        let pure =
          written_both id input in_list is_topic (get_query_data c RadarKeys.topics)
            (get_query_data c (RadarKeys.topic id)) (get_query_data c k) (apart id k)
            (same c RadarKeys.topics k) (same c (RadarKeys.topic id) k) in
        let first =
          get-set_both id (patched (patch_topics id input) list)
            (patched (λ t. patch_topic t input) one) c k in
        (
          first
              ∙ pure.0
              ∙ ap
                  (λ (o : Option Data).
                    patched_topic input is_topic (patched_list id input in_list o))
                  (get-cancel before RadarKeys.topics k),
          get-set_both id list one _ k
              ∙ ap (λ (o : Option Data). written topic one is_topic (written topics list in_list o))
                  first
              ∙ pure.1
              ∙ get-cancel before RadarKeys.topics k,
        )

  module _ (feed_id : ℕ) (subscribed : Bool) (before : Cache) (k : Key) where
    abbrev e : Cache
    e = cancel_queries before RadarKeys.feeds

    -- After onMutate of a subscription, a look-up of any key finds what it found before, but for
    -- the list of feeds, in which the feed has the new flag; and onError afterwards makes every
    -- look-up find what it found at first.
    pub on_toggle_lem :
        (get_query_data (on_toggle qc feed_id subscribed before).0 k
          ≡ toggled feed_id subscribed (key_beq RadarKeys.feeds k) (get_query_data before k))
        × (get_query_data
              (on_toggle_error qc
                (on_toggle qc feed_id subscribed before).1
                (on_toggle qc feed_id subscribed before).0)
              k
            ≡ get_query_data before k)
    unfolding on_toggle on_toggle_error
    on_toggle_lem =
        let list = as_feeds (get_query_data e RadarKeys.feeds) in
        let hit = key_beq RadarKeys.feeds k in
        let pure =
          written-feeds feed_id subscribed hit (get_query_data e RadarKeys.feeds)
            (get_query_data e k) (same e RadarKeys.feeds k) in
        let first = get-set_feeds (patched (set_subscribed feed_id subscribed) list) e k in
        (
          first
              ∙ pure.0
              ∙ ap (toggled feed_id subscribed hit) (get-cancel before RadarKeys.feeds k),
          get-set_feeds list _ k
              ∙ ap (written feeds list hit) (first ∙ pure.0)
              ∙ pure.1
              ∙ get-cancel before RadarKeys.feeds k,
        )
