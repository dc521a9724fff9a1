-- ===== src/Radar/Inbox.antt =====
-- The inbox: web/src/routes/radar._index.tsx and
-- web/src/features/radar/components/InboxFilterBar.tsx.
pub mod Chips
pub mod Page
use linktheca.Prelude.{
  ℕ, String, Bool, true, false, ◌||◌, Option, none, some, List, filter, ltb, ◌==◌, nat_eq,
  string_eq, if◌then◌else◌,
}
use linktheca.Web.Number.{to_string}
use linktheca.Web.SearchParams.{SearchParams, get, set, delete}
use linktheca.Radar.Types.{InboxState, MatchState, InboxFilters, MatchFilters, TopicWithStats}

abbrev pub parse_state : Option String → InboxState
parse_state none = InboxState.new
parse_state (some s) = if s == "all" then InboxState.all else InboxState.new

-- `Number(text)`, where that is an integer that is not negative. `Number(null)` is 0.
abbrev pub positive : Option ℕ → Option ℕ
positive none = none
positive (some n) = if ltb 0 n then some n else none

module _ (number : String → Option ℕ) where
  abbrev pub number_of : Option String → Option ℕ
  number_of none = some 0
  number_of (some s) = number s

  unfoldable pub parse_filters : SearchParams → InboxFilters
  parse_filters params = record {
    state = parse_state (get params "state");
    topic_id = positive (number_of (get params "topic"));
  }

abbrev pub put_state : InboxState → SearchParams → SearchParams
put_state InboxState.all p = set p "state" "all"
put_state InboxState.new p = delete p "state"

abbrev pub put_topic : Option ℕ → SearchParams → SearchParams
put_topic none p = delete p "topic"
put_topic (some id) p = set p "topic" (to_string id)

unfoldable pub next_search : SearchParams → InboxFilters → SearchParams
next_search current next = put_topic next.topic_id (put_state next.state current)

-- What the list of matches is asked for.
unfoldable pub match_filters : InboxFilters → MatchFilters
match_filters f = record {
  topic_id = f.topic_id;
  state = elim f.state [ InboxState.new ↦ some MatchState.new | InboxState.all ↦ none ];
}

abbrev is_selected : Option ℕ → ℕ → Bool
is_selected none id = false
is_selected (some s) id = id == s

unfoldable pub visible_topics : List TopicWithStats → Option ℕ → List TopicWithStats
visible_topics topics selected_id =
    filter (λ t. t.is_active || (ltb 0 t.stats.new_count || is_selected selected_id t.id)) topics

-- The clicks on the bar.
unfoldable pub choose_state : InboxFilters → InboxState → InboxFilters
choose_state f value = record f { state = value }

unfoldable pub choose_all_topics : InboxFilters → InboxFilters
choose_all_topics f = record f { topic_id = none }

unfoldable pub choose_topic : InboxFilters → ℕ → InboxFilters
choose_topic f id = record f { topic_id = if is_selected f.topic_id id then none else some id }
