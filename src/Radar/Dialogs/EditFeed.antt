-- ===== src/Radar/Dialogs/EditFeed.antt =====
-- web/src/features/radar/components/EditFeedDialog.tsx
use linktheca.Prelude.{
  ℕ, String, false, Option, none, some, List, [], ◌∷◌, ◌++◌, ltb, is_some, if◌then◌else◌,
}
use linktheca.Web.Text.{text_length}
use linktheca.Web.View.{
  View, Click, text, field, alert_of, text_of, error_of, footer, dialog_content,
}
use linktheca.Web.Dialog.{Handlers, Mounted}
use linktheca.Radar.Types.{FeedListItem}
use linktheca.Radar.Requests.{UpdateFeedInput}
use linktheca.Radar.Dialogs.{FeedValues, feed_defaults, feed_update, submit_feed}
use linktheca.Radar.Dialogs.AddFeed.{interval_select}

unfoldable pub errors : FeedValues → List (String × String)
errors v = if ltb 500 (text_length v.title) then ("title", "Name too long") ∷ [] else []

unfoldable pub handlers : Handlers FeedListItem FeedValues (ℕ × UpdateFeedInput) (Unit {0})
handlers = record {
  defaults = feed_defaults;
  field_errors = errors;
  request = λ feed v. some (feed.id, feed_update v);
  conclude = submit_feed;
}

unfoldable pub form : Mounted FeedListItem FeedValues → View Click
form f =
    alert_of f.top_error
    ++ (text "Name"
        ∷ field "edit-feed-title" (is_some (error_of "title" f.errors)) f.is_pending
        ∷ text "Leave empty to use the feed’s own title."
        ∷ (text_of (error_of "title" f.errors)
            ++ (interval_select "edit-feed-interval" f.is_pending
                ++ (field "edit-feed-paused" false f.is_pending
                    ∷ text "Paused"
                    ∷ footer f.is_pending (if f.is_pending then "Saving…" else "Save")))))

unfoldable pub view : Option (Mounted FeedListItem FeedValues) → View Click
unfolding form dialog_content
view none = []
view (some f) = dialog_content "Edit feed" f.subject.url (form f)
