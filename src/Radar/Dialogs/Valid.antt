-- ===== src/Radar/Dialogs/Valid.antt =====
-- What the dialogs of the library and of the radar send, by the schemas that their forms are
-- validated with.
use linktheca.Prelude.{
  ℕ, ◌≤◌, ◌≡◌, refl, String, Bool, true, false, Option, none, some, List, [], arith, All, if_elim,
  subst, ap, nullish, ◌==◌, string_eq, if◌then◌else◌,
}
use linktheca.Web.Text.{text_length, length_errors}
use linktheca.Web.Dialog.{Event, run, closed}
use linktheca.Web.Dialog.Sending.{Makes, run-Sent}
use linktheca.Library.Types.{LibraryItem}
use linktheca.Library.AddLink.Popup as AddLink
use linktheca.Radar.Types.{Topic, TopicWithStats, FeedListItem}
use linktheca.Radar.Requests.{UpdateTopicInput, UpdateFeedInput}
use linktheca.Radar.Dialogs.{
  TopicValues, FeedValues, is_empty, changed, topic_patch, topic_update, feed_update,
}
use linktheca.Radar.Dialogs.NewTopic as NewTopic
use linktheca.Radar.Dialogs.EditTopic as EditTopic
use linktheca.Radar.Dialogs.AddFeed as AddFeed
use linktheca.Radar.Dialogs.EditFeed as EditFeed

abbrev Fits : ℕ → ℕ → String → Type 0
Fits min max s = (min ≤ text_length s) × (text_length s ≤ max)

-- A field that an update has.
abbrev Given : (String → Type 0) → Option String → Type 0
Given Q none = Unit
Given Q (some s) = Q s

abbrev pub IsProper : TopicValues → Type 0
IsProper v = Fits 1 200 v.name × Fits 10 2000 v.description

abbrev pub IsTopicUpdate : ℕ × UpdateTopicInput → Type 0
IsTopicUpdate (id, patch) =
    (is_empty patch ≡ false)
    × Given (Fits 1 200) patch.name
    × Given (Fits 10 2000) patch.description

abbrev pub IsFeedUpdate : ℕ × UpdateFeedInput → Type 0
IsFeedUpdate (id, patch) = Given (Fits 0 500) patch.title

Fits-length_errors :
    (name : String) (min : ℕ) (small : String) (max : ℕ) (big value : String)
    (rest : List (String × String))
    → length_errors name min small max big value rest ≡ []
    → Fits min max value × (rest ≡ [])
Fits-length_errors name min small max big value rest e = ground arith

new_topic_valid : (v : TopicValues) → NewTopic.errors v ≡ [] → IsProper v
unfolding NewTopic.errors
new_topic_valid v e =
    let name = Fits-length_errors _ 1 _ 200 _ v.name _ e in
    (name.0, (Fits-length_errors _ 10 _ 2000 _ v.description _ name.1).0)

edit_topic_valid :
    (too_big : ℕ → String) (v : TopicValues) → EditTopic.errors too_big v ≡ [] → IsProper v
unfolding EditTopic.errors
edit_topic_valid too_big v e =
    let name = Fits-length_errors _ 1 _ 200 _ v.name _ e in
    (name.0, (Fits-length_errors _ 10 _ 2000 _ v.description _ name.1).0)

Given-changed :
    (min max : ℕ) (value old : String)
    → Fits min max value
    → Given (Fits min max) (changed value old)
Given-changed min max value old f = if_elim (Given (Fits min max)) (value == old) (λ e. tt) (λ e. f)

-- The patch that is sent, if it is not empty.
update_valid :
    (b : Bool) (patch : UpdateTopicInput) (id : ℕ) (p : ℕ × UpdateTopicInput)
    → is_empty patch ≡ b
    → Given (Fits 1 200) patch.name
    → Given (Fits 10 2000) patch.description
    → (elim (if b then none else some patch) [ none ↦ none | some q ↦ some (id, q) ]) ≡ some p
    → IsTopicUpdate p
update_valid true patch id p e name description m = cc m
update_valid false patch id p e name description m =
    subst IsTopicUpdate (ap (λ o. nullish o p) m) (e, name, description)

link-Makes : (is_url : String → Bool) → Makes (AddLink.handlers is_url) (λ url. is_url url ≡ true)
unfolding AddLink.handlers AddLink.url_errors
link-Makes is_url x v p e m = ground arith

new_topic-Makes : Makes NewTopic.handlers IsProper
unfolding NewTopic.handlers NewTopic.errors
new_topic-Makes x v p e m = subst IsProper (ap (λ o. nullish o p) m) (new_topic_valid v e)

edit_topic-Makes : (too_big : ℕ → String) → Makes (EditTopic.handlers too_big) IsTopicUpdate
unfolding EditTopic.handlers topic_update topic_patch
edit_topic-Makes too_big x v p e m =
    let valid = edit_topic_valid too_big v e in
    let patch = topic_patch v x in
    update_valid (is_empty patch) patch x.id p refl (Given-changed 1 200 v.name x.name valid.0)
      (Given-changed 10 2000 v.description x.description valid.1) m

personal-Makes :
    (is_url : String → Bool) → Makes (AddFeed.personal_handlers is_url) (λ v. is_url v.url ≡ true)
unfolding AddFeed.personal_handlers AddFeed.errors
personal-Makes is_url x v p e m = ground arith

global-Makes :
    (is_url : String → Bool) → Makes (AddFeed.global_handlers is_url) (λ v. is_url v.url ≡ true)
unfolding AddFeed.global_handlers AddFeed.errors
global-Makes is_url x v p e m = ground arith

edit_feed-Makes : Makes EditFeed.handlers IsFeedUpdate
unfolding EditFeed.handlers EditFeed.errors feed_update
edit_feed-Makes x v p e m = subst IsFeedUpdate (ap (λ o. nullish o p) m) (ground arith)

-- Whatever the events from a closed dialog: every link and every new feed sent has a URL that
-- passes the test; every new topic sent has a name of 1 to 200 and a description of 10 to 2000
-- units; every update sent of a topic is not empty, and the name and the description that it has
-- are of these lengths; every update sent of a feed has a title of at most 500 units.
pub requests_valid :
    (is_url : String → Bool) (too_big : ℕ → String)
    (link : List (Event (Unit {0}) String LibraryItem))
    (new : List (Event (Unit {0}) TopicValues Topic))
    (topic : List (Event TopicWithStats TopicValues Topic))
    (source : List (Event (Unit {0}) AddFeed.Values Bool))
    (shared : List (Event (Unit {0}) AddFeed.Values (Unit {0})))
    (feed : List (Event FeedListItem FeedValues (Unit {0})))
    → All (λ url. is_url url ≡ true) (run (AddLink.handlers is_url) link closed).sent
      × All IsProper (run NewTopic.handlers new closed).sent
      × All IsTopicUpdate (run (EditTopic.handlers too_big) topic closed).sent
      × All
          (λ (v : AddFeed.Values). is_url v.url ≡ true)
          (run (AddFeed.personal_handlers is_url) source closed).sent
      × All
          (λ (v : AddFeed.Values). is_url v.url ≡ true)
          (run (AddFeed.global_handlers is_url) shared closed).sent
      × All IsFeedUpdate (run EditFeed.handlers feed closed).sent
requests_valid is_url too_big link new topic source shared feed = (
  run-Sent _ _ (link-Makes is_url) link closed tt,
  run-Sent _ _ new_topic-Makes new closed tt,
  run-Sent _ _ (edit_topic-Makes too_big) topic closed tt,
  run-Sent _ _ (personal-Makes is_url) source closed tt,
  run-Sent _ _ (global-Makes is_url) shared closed tt,
  run-Sent _ _ edit_feed-Makes feed closed tt,
)
