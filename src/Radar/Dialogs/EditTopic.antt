-- ===== src/Radar/Dialogs/EditTopic.antt =====
-- web/src/features/radar/components/EditTopicDialog.tsx
use linktheca.Prelude.{ℕ, String, Option, none, some, List, [], ◌∷◌, ◌++◌, if◌then◌else◌}
use linktheca.Web.App.{toast_success}
use linktheca.Web.Form.{failed, settle}
use linktheca.Web.Text.{length_errors}
use linktheca.Web.View.{View, Click, alert_of, labelled, footer, dialog_content}
use linktheca.Web.Dialog.{Handlers, Mounted}
use linktheca.Radar.Types.{Topic, TopicWithStats}
use linktheca.Radar.Requests.{UpdateTopicInput}
use linktheca.Radar.Dialogs.{TopicValues, topic_error, topic_update}

-- The package `zod` has a text of its own for what is too long.
unfoldable pub errors : (ℕ → String) → TopicValues → List (String × String)
errors too_big v = length_errors "name" 1 "Name is required" 200 (too_big 200) v.name (
    length_errors "description" 10 "Description must be at least 10 characters" 2000 (too_big 2000)
      v.description [])

unfoldable pub handlers :
    (ℕ → String) → Handlers TopicWithStats TopicValues (ℕ × UpdateTopicInput) Topic
handlers too_big = record {
  defaults = λ topic. record { name = topic.name; description = topic.description };
  field_errors = errors too_big;
  request =
      λ topic v. elim (topic_update v topic) [ none ↦ none | some patch ↦ some (topic.id, patch) ];
  conclude = λ r. settle (λ _. toast_success "Saved" ∷ []) (λ e. failed (topic_error e)) r;
}

unfoldable pub form : Mounted TopicWithStats TopicValues → View Click
form f =
    alert_of f.top_error
    ++ (labelled "Name" "edit-topic-name" "name" f.errors f.is_pending
        ++ (labelled "Description" "edit-topic-desc" "description" f.errors f.is_pending
            ++ footer f.is_pending (if f.is_pending then "Saving…" else "Save")))

unfoldable pub view : Option (Mounted TopicWithStats TopicValues) → View Click
unfolding form dialog_content
view none = []
view (some f) =
    dialog_content "Edit topic" "Changing the description will re-embed the topic." (form f)
