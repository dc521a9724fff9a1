-- ===== src/Radar/Dialogs/Controls.antt =====
-- The buttons of the dialogs: AddLinkDialog.tsx of web/src/features/library/components, and
-- NewTopicDialog.tsx, EditTopicDialog.tsx, AddFeedDialog.tsx and EditFeedDialog.tsx of
-- web/src/features/radar/components.
use linktheca.Prelude.{
  ℕ, String, ◌≡◌, refl, Bool, true, false, not, Option, none, some, List, [], ◌∷◌, arith, is_some,
  if◌then◌else◌,
}
use linktheca.Web.Dialog.{Mounted}
use linktheca.Web.View.{View, Click, text, offers, is_save, is_cancel}
use linktheca.Web.View.Offers.{offering, offers-append}
use linktheca.Radar.Types.{TopicWithStats, FeedListItem, TopicPreview}
use linktheca.Radar.Dialogs.{TopicValues, FeedValues}
use linktheca.Radar.Dialogs.NewTopic
use linktheca.Radar.Dialogs.EditTopic
use linktheca.Radar.Dialogs.AddFeed
use linktheca.Radar.Dialogs.AddFeed.{Scope, Values}
use linktheca.Radar.Dialogs.EditFeed
use linktheca.Library.AddLink.Popup as AddLink
use linktheca.Web.Http.{Thrown}
use linktheca.Web.Json.{Decimal}
use linktheca.Radar.Preview.{
  Line, threshold_rule, preview_row, Panel, too_short_hint, nothing_scores, failed, list,
}
use linktheca.Radar.Preview.Markup

module _ {S V : Type 0} where
  abbrev can_save : Option (Mounted S V) → Bool
  can_save none = false
  can_save (some f) = not f.is_pending

  -- The view of a dialog lets its form be saved if it does not wait, and closed whenever it is there.
  abbrev pub Controls : View Click → Option (Mounted S V) → Type 0
  Controls v o = (offers is_save v ≡ can_save o) × (offers is_cancel v ≡ is_some o)

-- The panel of the preview has no controls.
module _ (to_fixed : Decimal → String) (host : String → String) (kind : Click → Bool) where
  offers-lines : (ls : List Line) → offers kind (Markup.lines to_fixed host ls) ≡ false
  offers-lines [] = refl
  offers-lines (threshold_rule t ∷ ls) = offers-lines ls
  offers-lines (preview_row m muted ∷ ls) = offers-lines ls

  offers-body : (p : Panel) → offers kind (Markup.body to_fixed host p) ≡ false
  unfolding Markup.body
  offers-body too_short_hint = refl
  offers-body Panel.skeleton = refl
  offers-body nothing_scores = refl
  offers-body (failed m) = refl
  offers-body (list ls) = offers-lines ls

  offers-if_text : (b : Bool) (m : String) → offers kind (if b then text m ∷ [] else []) ≡ false
  offers-if_text true m = refl
  offers-if_text false m = refl

  offers-preview :
      (lt : Decimal → Decimal → Bool) (n : ℕ) (is_fetching : Bool) (error : Option Thrown)
      (preview : Option TopicPreview)
      → offers kind (Markup.view to_fixed host lt n is_fetching error preview) ≡ false
  unfolding Markup.view
  offers-preview lt n is_fetching error preview = simp (offers-append, offers-if_text, offers-body)

add_link-Controls :
    (show_paste : Bool) (stage : ℕ) (o : Option (Mounted (Unit {0}) String))
    → Controls (AddLink.view show_paste stage o) o
unfolding AddLink.view
add_link-Controls show_paste stage none = (refl, refl)
add_link-Controls show_paste stage (some f) =
    (simp offering (ground arith), simp offering (ground arith))

new_topic-Controls :
    (to_fixed : Decimal → String) (host : String → String) (lt : Decimal → Decimal → Bool) (n : ℕ)
    (is_fetching : Bool) (error : Option Thrown) (preview : Option TopicPreview)
    (o : Option (Mounted (Unit {0}) TopicValues))
    → Controls (NewTopic.view (Markup.view to_fixed host lt n is_fetching error preview) o) o
unfolding NewTopic.view
new_topic-Controls to_fixed host lt n is_fetching error preview none = (refl, refl)
new_topic-Controls to_fixed host lt n is_fetching error preview (some f) =
    (simp (offering, offers-preview) (ground arith), simp (offering, offers-preview) (ground arith))

edit_topic-Controls :
    (o : Option (Mounted TopicWithStats TopicValues)) → Controls (EditTopic.view o) o
unfolding EditTopic.view
edit_topic-Controls none = (refl, refl)
edit_topic-Controls (some f) = (simp offering (ground arith), simp offering (ground arith))

add_feed-Controls :
    (scope : Scope) (o : Option (Mounted (Unit {0}) Values)) → Controls (AddFeed.view scope o) o
unfolding AddFeed.view
add_feed-Controls scope none = (refl, refl)
add_feed-Controls scope (some f) = (simp offering (ground arith), simp offering (ground arith))

edit_feed-Controls : (o : Option (Mounted FeedListItem FeedValues)) → Controls (EditFeed.view o) o
unfolding EditFeed.view
edit_feed-Controls none = (refl, refl)
edit_feed-Controls (some f) = (simp offering (ground arith), simp offering (ground arith))

-- Each of the five dialogs with a form, whatever its state, lets the form be saved exactly if it is
-- shown and does not wait for an answer, and lets it be closed exactly if it is shown.
pub popups_offer :
    (show_paste : Bool) (stage : ℕ) (link : Option (Mounted (Unit {0}) String))
    (to_fixed : Decimal → String) (host : String → String) (lt : Decimal → Decimal → Bool) (n : ℕ)
    (is_fetching : Bool) (error : Option Thrown) (preview : Option TopicPreview)
    (new : Option (Mounted (Unit {0}) TopicValues))
    (topic : Option (Mounted TopicWithStats TopicValues)) (scope : Scope)
    (source : Option (Mounted (Unit {0}) Values)) (feed : Option (Mounted FeedListItem FeedValues))
    → Controls (AddLink.view show_paste stage link) link
      × Controls (NewTopic.view (Markup.view to_fixed host lt n is_fetching error preview) new) new
      × Controls (EditTopic.view topic) topic
      × Controls (AddFeed.view scope source) source
      × Controls (EditFeed.view feed) feed
popups_offer show_paste stage link to_fixed host lt n is_fetching error preview new topic scope
      source feed =
    (
      add_link-Controls show_paste stage link,
      new_topic-Controls to_fixed host lt n is_fetching error preview new,
      edit_topic-Controls topic,
      add_feed-Controls scope source,
      edit_feed-Controls feed,
    )
