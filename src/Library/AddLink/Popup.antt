-- ===== src/Library/AddLink/Popup.antt =====
-- `AddLinkDialog` and `AddLinkForm` of web/src/features/library/components/AddLinkDialog.tsx, with the
-- store of web/src/features/library/use-add-link-store.ts, which opens and closes the dialog.
pub mod Stages
use linktheca.Prelude.{
  ℕ, zero, suc, String, Bool, true, false, Option, none, some, List, [], ◌∷◌, ◌++◌, is_some,
  if◌then◌else◌,
}
use linktheca.Web.View.{
  View, Click, cancel, save, paste, button, field, text, alert_of, text_of, error_of, footer,
  dialog_content,
}
use linktheca.Web.Dialog.{Handlers, Mounted}
use linktheca.Web.Timers.{Timers, fired, remaining, last_set}
use linktheca.Library.Types.{LibraryItem}
use linktheca.Library.AddLink.{submit_link}

-- `z.string().url(…)`, by the test for a URL of the package `zod`
unfoldable pub url_errors : (String → Bool) → String → String → List (String × String)
url_errors is_url message url = if is_url url then [] else ("url", message) ∷ []

unfoldable pub handlers : (String → Bool) → Handlers (Unit {0}) String String LibraryItem
handlers is_url = record {
  defaults = λ _. "";
  field_errors = url_errors is_url "Please enter a valid URL (including https://)";
  request = λ _ url. some url;
  conclude = submit_link;
}

-- `stage`, and the two timers that move it on.
pub record Progress : Type 0 where
  pub stage : ℕ
  pub timers : Timers ℕ

unfoldable pub begin : Progress
begin = record { stage = 0; timers = (1500, 1) ∷ (3500, 2) ∷ [] }

unfoldable pub elapsed : ℕ → Progress → Progress
elapsed ms p = record {
  stage = last_set p.stage (fired ms p.timers);
  timers = remaining ms p.timers;
}

-- `clearTimeout(t1); clearTimeout(t2)`
unfoldable pub finish : Progress → Progress
finish p = record p { timers = [] }

abbrev pub progress_stages : List String
progress_stages = "Fetching page…" ∷ "Extracting content…" ∷ "Saving to library…" ∷ []

abbrev pub get_elem? : List String → ℕ → Option String
get_elem? [] i = none
get_elem? (x ∷ xs) zero = some x
get_elem? (x ∷ xs) (suc i) = get_elem? xs i

abbrev stage_of : Bool → ℕ → View Click
stage_of false stage = []
stage_of true stage = elim (get_elem? progress_stages stage) [ none ↦ [] | some s ↦ text s ∷ [] ]

abbrev paste_button : Bool → Bool → View Click
paste_button show_paste is_pending = if show_paste then button "Paste" is_pending paste ∷ [] else []

unfoldable pub form : Bool → ℕ → Mounted (Unit {0}) String → View Click
form show_paste stage f =
    alert_of f.top_error
    ++ (text "URL"
        ∷ field "add-link-url" (is_some (error_of "url" f.errors)) f.is_pending
        ∷ (paste_button show_paste f.is_pending
            ++ (text_of (error_of "url" f.errors)
                ++ (stage_of f.is_pending stage
                    ++ footer f.is_pending (if f.is_pending then "Saving…" else "Save")))))

unfoldable pub view : Bool → ℕ → Option (Mounted (Unit {0}) String) → View Click
unfolding form dialog_content
view show_paste stage none = []
view show_paste stage (some f) =
    dialog_content "Add a link" "Paste a URL — fetch and save the article" (form show_paste stage f)
