-- ===== src/Radar/Dialogs/NewTopic.antt =====
-- web/src/features/radar/components/NewTopicDialog.tsx, with the store of
-- web/src/features/radar/use-new-topic-store.ts, which opens and closes the dialog.
use linktheca.Prelude.{String, Option, none, some, List, [], ◌++◌, if◌then◌else◌}
use linktheca.Web.Text.{length_errors}
use linktheca.Web.View.{View, Click, alert_of, labelled, footer, dialog_content}
use linktheca.Web.Dialog.{Handlers, Mounted}
use linktheca.Radar.Types.{Topic}
use linktheca.Radar.Dialogs.{TopicValues, submit_new_topic}

unfoldable pub errors : TopicValues → List (String × String)
errors v = length_errors "name" 1 "Name is required" 200 "Name too long" v.name (
    length_errors "description" 10 "Description must be at least 10 characters" 2000
      "Description too long" v.description [])

unfoldable pub handlers : Handlers (Unit {0}) TopicValues TopicValues Topic
handlers = record {
  defaults = λ _. record { name = ""; description = "" };
  field_errors = errors;
  request = λ _ v. some v;
  conclude = submit_new_topic;
}

-- The panel with the preview is given.
unfoldable pub form : View Click → Mounted (Unit {0}) TopicValues → View Click
form preview f =
    alert_of f.top_error
    ++ (labelled "Name" "new-topic-name" "name" f.errors f.is_pending
        ++ (labelled "Description" "new-topic-desc" "description" f.errors f.is_pending
            ++ (preview ++ footer f.is_pending (if f.is_pending then "Saving…" else "Save"))))

unfoldable pub view : View Click → Option (Mounted (Unit {0}) TopicValues) → View Click
unfolding form dialog_content
view preview none = []
view preview (some f) =
    dialog_content "New topic" "Describe what you want to watch for; Radar will keep an eye out."
      (form preview f)
