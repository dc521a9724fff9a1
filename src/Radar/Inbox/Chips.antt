-- ===== src/Radar/Inbox/Chips.antt =====
-- The address after a click in the inbox, read again, and the topics that have a chip.
use linktheca.Prelude.{
  ℕ, String, ◌<◌, ◌≡◌, refl, ◌∙◌, Bool, false, ◌&&◌, ◌||◌, not, Option, none, some, List, [], ◌∷◌,
  arith, any, filter, ltb, ◌==◌, nat_eq, string_eq, if◌then◌else◌,
}
use linktheca.Web.Number.{to_string, digits_value, digits_value-to_string}
use linktheca.Web.SearchParams.{SearchParams, get, get-set, get-delete}
use linktheca.Radar.Types.{InboxState, InboxFilters, TopicWithStats}
use linktheca.Radar.Inbox.{
  parse_state, parse_filters, put_state, put_topic, next_search, visible_topics, number_of,
  positive,
}

abbrev state_value : InboxState → Option String
state_value InboxState.all = some "all"
state_value InboxState.new = none

abbrev topic_value : Option ℕ → Option String
topic_value none = none
topic_value (some n) = some (to_string n)

get-put_state :
    (s : InboxState) (p : SearchParams) (k : String)
    → get (put_state s p) k ≡ (if "state" == k then state_value s else get p k)
get-put_state InboxState.all p k = get-set p "state" "all" k
get-put_state InboxState.new p k = get-delete p "state" k

get-put_topic :
    (o : Option ℕ) (p : SearchParams) (k : String)
    → get (put_topic o p) k ≡ (if "topic" == k then topic_value o else get p k)
get-put_topic none p k = get-delete p "topic" k
get-put_topic (some n) p k = get-set p "topic" (to_string n) k

get-next_search :
    (p : SearchParams) (f : InboxFilters) (k : String)
    → get (next_search p f) k ≡ (
        if "topic" == k
        then topic_value f.topic_id
        else if "state" == k
        then state_value f.state
        else get p k)
unfolding next_search
get-next_search p f k =
    get-put_topic f.topic_id (put_state f.state p) k ∙ rw (get-put_state f.state p k) refl

state_read : (s : InboxState) → parse_state (state_value s) ≡ s
state_read InboxState.all = refl
state_read InboxState.new = refl

-- Numbers below this are read without loss.
abbrev max_safe : ℕ
max_safe = 9007199254740992

-- The reader of numbers gives a text of digits its value.
abbrev ReadsDigits : (String → Option ℕ) → Type 0
ReadsDigits number =
    (s : String) (n : ℕ) → digits_value s ≡ some n → n < max_safe → number s ≡ some n

abbrev IsTopicId : Option ℕ → Type 0
IsTopicId none = Unit
IsTopicId (some n) = (0 < n) × (n < max_safe)

module _ (number : String → Option ℕ) (reads : ReadsDigits number) where
  topic_read : (o : Option ℕ) → IsTopicId o → positive (number_of number (topic_value o)) ≡ o
  topic_read none _ = refl
  topic_read (some n) (low, high) =
      rw (reads (to_string n) n (digits_value-to_string n) high) (ground arith)

  -- With a reader of numbers that gives texts of digits below 2^53 their value, the filters put
  -- into the address of the inbox are read from it again, if the topic is absent or a positive
  -- number below 2^53, and every other parameter keeps its value.
  pub inbox_parse_filters-next_search :
      (p : SearchParams) (f : InboxFilters) (k : String)
      → IsTopicId f.topic_id
      → ("state" == k) ≡ false
      → ("topic" == k) ≡ false
      → (parse_filters number (next_search p f) ≡ f) × (get (next_search p f) k ≡ get p k)
  unfolding parse_filters
  inbox_parse_filters-next_search p f k h hs ht = (
    rw
        (
          get-next_search p f "state",
          get-next_search p f "topic",
          topic_read f.topic_id h,
          state_read f.state,
        )
        refl,
    get-next_search p f k ∙ rw (ht, hs) refl,
  )

keeps_selected :
    (selected : ℕ) (ts : List TopicWithStats)
    → any (λ t. t.id == selected) (visible_topics ts (some selected))
      ≡ any (λ t. t.id == selected) ts
unfolding visible_topics
keeps_selected selected [] = refl
keeps_selected selected (t ∷ ts) = ground (arith, keeps_selected selected ts)

shows_nothing_else :
    (ts : List TopicWithStats)
    → any (λ t. not t.is_active && not (ltb 0 t.stats.new_count)) (visible_topics ts none) ≡ false
unfolding visible_topics
shows_nothing_else [] = refl
shows_nothing_else (t ∷ ts) = ground (arith, shows_nothing_else ts)

-- What is worth a chip, whatever is selected.
abbrev pub has_news : TopicWithStats → Bool
has_news t = t.is_active || ltb 0 t.stats.new_count

keeps_news :
    (selected : Option ℕ) (ts : List TopicWithStats)
    → filter has_news (visible_topics ts selected) ≡ filter has_news ts
unfolding visible_topics
keeps_news selected [] = refl
keeps_news selected (t ∷ ts) = ground (arith, keeps_news selected ts)

-- The chips of the inbox have the selected topic exactly if the topics have it; with none selected
-- they have no paused topic without new matches; and both with a topic selected and with none, the
-- topics that are active or have new matches are all there, in their order.
pub visible_topics_lem :
    (ts : List TopicWithStats) (selected : ℕ)
    → (any (λ t. t.id == selected) (visible_topics ts (some selected))
        ≡ any (λ t. t.id == selected) ts)
      × (any (λ t. not t.is_active && not (ltb 0 t.stats.new_count)) (visible_topics ts none)
          ≡ false)
      × (filter has_news (visible_topics ts (some selected)) ≡ filter has_news ts)
      × (filter has_news (visible_topics ts none) ≡ filter has_news ts)
visible_topics_lem ts selected = (
  keeps_selected selected ts,
  shows_nothing_else ts,
  keeps_news (some selected) ts,
  keeps_news none ts,
)
