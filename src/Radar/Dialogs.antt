-- ===== src/Radar/Dialogs.antt =====
-- The dialogs of web/src/features/radar/components: NewTopicDialog.tsx, EditTopicDialog.tsx,
-- AddFeedDialog.tsx and EditFeedDialog.tsx.
pub mod Edits
pub mod NewTopic
pub mod EditTopic
pub mod AddFeed
pub mod EditFeed
pub mod Controls
pub mod Valid
use linktheca.Prelude.{
  ℕ, String, is_some, ◌||◌, Bool, true, false, not, Option, none, some, List, [], ◌∷◌, ◌==◌, nat_eq,
  string_eq, if◌then◌else◌,
}
use linktheca.Web.Http.{Thrown, api}
use linktheca.Web.App.{Effect, toast_success, Result, ok, err}
use linktheca.Web.Form.{Form, failed, succeeded, settle}
use linktheca.Auth.Forms.{or_text}
use linktheca.Radar.Types.{Topic, TopicWithStats, FeedListItem}
use linktheca.Radar.Requests.{UpdateTopicInput, UpdateFeedInput}

-- `mapError` of NewTopicDialog.tsx and of EditTopicDialog.tsx
unfoldable pub topic_error : Thrown → String
topic_error (api e) =
    if e.code == "embedder_unavailable"
    then "Embedder is currently unavailable. Try again in a moment."
    else if e.status == 400
    then or_text e.message "Invalid input"
    else "Could not save — please try again"
topic_error _ = "Could not save — please try again"

unfoldable pub submit_new_topic : Result Topic → Form
submit_new_topic r = settle (λ _. toast_success "Saved" ∷ []) (λ e. failed (topic_error e)) r

pub record TopicValues : Type 0 where
  pub name : String
  pub description : String

abbrev pub changed : String → String → Option String
changed value old = if value == old then none else some value

-- `patch` of EditTopicDialog.tsx
unfoldable pub topic_patch : TopicValues → TopicWithStats → UpdateTopicInput
topic_patch values topic = record {
  name = changed values.name topic.name;
  description = changed values.description topic.description;
  match_threshold = none;
  is_active = none;
}

-- `Object.keys(patch).length === 0`
abbrev pub is_empty : UpdateTopicInput → Bool
is_empty patch = not (
    is_some patch.name
    || is_some patch.description
    || is_some patch.match_threshold
    || is_some patch.is_active)

-- The update to send, if any.
unfoldable pub topic_update : TopicValues → TopicWithStats → Option UpdateTopicInput
topic_update values topic =
    let patch = topic_patch values topic in if is_empty patch then none else some patch

-- `onSubmit` of EditTopicDialog.tsx, by the end of the request, if one is sent.
unfoldable submit_topic : TopicValues → TopicWithStats → Result Topic → Form
submit_topic values topic r = elim (topic_update values topic) [
  | none ↦ succeeded []
  | some patch ↦ settle (λ _. toast_success "Saved" ∷ []) (λ e. failed (topic_error e)) r
]

unfoldable pub feed_error : Thrown → String
feed_error (api e) =
    if e.code == "quota_exceeded"
    then "You've reached your limit of personal sources. Remove one first."
    else if e.status == 409
    then "This feed is already in your sources"
    else if e.status == 400
    then or_text e.message "Invalid input"
    else if e.status == 403
    then "You are not allowed to add this feed"
    else "Could not save — please try again"
feed_error _ = "Could not save — please try again"

-- `onSubmit` of AddFeedDialog.tsx in the scope "global"
unfoldable pub submit_global_feed : Result (Unit {0}) → Form
submit_global_feed r =
    settle (λ _. toast_success "Feed added to the catalog" ∷ []) (λ e. failed (feed_error e)) r

-- In the scope "personal" the answer says whether the feed is new.
unfoldable pub submit_personal_feed : Result Bool → Form
submit_personal_feed r =
    settle
      (λ created.
        toast_success
          (if created then "Source added" else "Already in the shared catalog — subscribed")
        ∷ [])
      (λ e. failed (feed_error e)) r

pub record FeedValues : Type 0 where
  pub title : String
  pub fetch_interval_seconds : ℕ
  pub paused : Bool

-- EditFeedDialog.tsx: the values that the form starts with, and the update that it sends.
unfoldable pub feed_defaults : FeedListItem → FeedValues
feed_defaults feed = record {
  title = elim feed.title [ none ↦ "" | some t ↦ t ];
  fetch_interval_seconds = feed.fetch_interval_seconds;
  paused = not feed.is_active;
}

unfoldable pub feed_update : FeedValues → UpdateFeedInput
feed_update values = record {
  title = some values.title;
  fetch_interval_seconds = some values.fetch_interval_seconds;
  is_active = some (not values.paused);
}

unfoldable pub submit_feed : Result (Unit {0}) → Form
submit_feed r = settle (λ _. toast_success "Feed updated" ∷ []) (λ e. failed (feed_error e)) r
