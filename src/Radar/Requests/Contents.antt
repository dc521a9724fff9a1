-- ===== src/Radar/Requests/Contents.antt =====
-- What the requests of web/src/features/radar/api.ts carry.
use linktheca.Prelude.{
  ℕ, String, ◌≡◌, refl, ◌∙◌, Option, none, some, arith, if◌then◌else◌, ◌==◌, string_eq, [],
  nullish_or,
}
use mathlib.Core.Option
use linktheca.Web.Json.{Json, Fields, bool, num, str, int, get, find, optional}
use linktheca.Web.SearchParams
use linktheca.Web.SearchParams.{SearchParams, set, get-set}
use linktheca.Web.Number.{to_string}
use linktheca.Radar.Types.{MatchState}
use linktheca.Radar.Requests.{
  UpdateTopicInput, UpdateFeedInput, ListMatchesArgs, update_topic_body, update_feed_body,
  state_name, set_topic, set_state, build_matches_query,
}

find-optional :
    {A : Type 0} (k : String) (to : A → Json) (o : Option A) (fs : Fields) (j : String)
    → find j (optional k to o fs)
      ≡ (if k == j then nullish_or (Option.map to o) (find j fs) else find j fs)
find-optional k to none fs j = ground arith
find-optional k to (some a) fs j = ground arith

nullish_or-none {ℓ} : {A : Type ℓ} (o : Option A) → nullish_or o none ≡ o
nullish_or-none none = refl
nullish_or-none (some a) = refl

-- The body of an update of a topic has each field exactly if it is given.
get-update_topic_body :
    (input : UpdateTopicInput)
    → (get "name" (update_topic_body input) ≡ Option.map str input.name)
      × (get "description" (update_topic_body input) ≡ Option.map str input.description)
      × (get "match_threshold" (update_topic_body input) ≡ Option.map num input.match_threshold)
      × (get "is_active" (update_topic_body input) ≡ Option.map bool input.is_active)
unfolding update_topic_body
get-update_topic_body input = (ground arith, ground arith, ground arith, ground arith)

-- So has the body of an update of a feed.
get-update_feed_body :
    (input : UpdateFeedInput)
    → (get "title" (update_feed_body input) ≡ Option.map str input.title)
      × (get "fetch_interval_seconds" (update_feed_body input)
          ≡ Option.map int input.fetch_interval_seconds)
      × (get "is_active" (update_feed_body input) ≡ Option.map bool input.is_active)
unfolding update_feed_body
get-update_feed_body input = (ground arith, ground arith, ground arith)

get-set_topic :
    (o : Option ℕ) (p : SearchParams) (k : String)
    → SearchParams.get (set_topic o p) k ≡ (
        if "topic_id" == k
        then nullish_or (Option.map to_string o) (SearchParams.get p k)
        else SearchParams.get p k)
get-set_topic none p k = ground arith
get-set_topic (some n) p k = get-set p "topic_id" (to_string n) k ∙ ground arith

get-set_state :
    (o : Option MatchState) (p : SearchParams) (k : String)
    → SearchParams.get (set_state o p) k ≡ (
        if "state" == k
        then nullish_or (Option.map state_name o) (SearchParams.get p k)
        else SearchParams.get p k)
get-set_state none p k = ground arith
get-set_state (some s) p k = get-set p "state" (state_name s) k ∙ ground arith

before_topic : ListMatchesArgs → String → Option String
before_topic args k =
    if "offset" == k
    then some (to_string args.offset)
    else if "limit" == k
    then some (to_string args.limit)
    else none

before_state : ListMatchesArgs → String → Option String
before_state args k =
    if "topic_id" == k
    then nullish_or (Option.map to_string args.topic_id) (before_topic args k)
    else before_topic args k

get_field :
    (args : ListMatchesArgs) (k : String)
    → SearchParams.get (build_matches_query args) k ≡ (
        if "state" == k
        then nullish_or (Option.map state_name args.state) (before_state args k)
        else before_state args k)
unfolding build_matches_query before_state before_topic SearchParams.get
get_field args k =
    let p = set [] "limit" (to_string args.limit) in
    let q = set p "offset" (to_string args.offset) in
    rw
      (
        get-set_state args.state (set_topic args.topic_id q) k,
        get-set_topic args.topic_id q k,
        get-set p "offset" (to_string args.offset) k,
        get-set [] "limit" (to_string args.limit) k,
      )
      refl

-- The query of the matches has the limit and the offset in digits, and the topic and the state
-- exactly if they are given.
get-build_matches_query :
    (args : ListMatchesArgs)
    → (SearchParams.get (build_matches_query args) "limit" ≡ some (to_string args.limit))
      × (SearchParams.get (build_matches_query args) "offset" ≡ some (to_string args.offset))
      × (SearchParams.get (build_matches_query args) "topic_id"
          ≡ Option.map to_string args.topic_id)
      × (SearchParams.get (build_matches_query args) "state" ≡ Option.map state_name args.state)
unfolding before_state before_topic
get-build_matches_query args = (
  get_field args "limit",
  get_field args "offset",
  get_field args "topic_id" ∙ nullish_or-none (Option.map to_string args.topic_id),
  get_field args "state" ∙ nullish_or-none (Option.map state_name args.state),
)
