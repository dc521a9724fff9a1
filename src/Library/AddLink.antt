-- ===== src/Library/AddLink.antt =====
-- web/src/features/library/components/AddLinkDialog.tsx and the save button of
-- web/src/features/radar/components/MatchReader.tsx.
pub mod Popup
use linktheca.Prelude.{
  String, Bool, false, Option, none, some, List, [], ◌∷◌, ◌||◌, ◌==◌, nat_eq, string_eq, leb,
  if◌then◌else◌,
}
use linktheca.Web.Http.{Thrown, api}
use linktheca.Web.App.{Effect, toast_success, toast_error, toast_info, Result, ok, err}
use linktheca.Web.Form.{Form, failed, settle}
use linktheca.Auth.Forms.{or_text}
use linktheca.Library.Types.{LibraryItem}

abbrev is_saved_already : Thrown → Bool
is_saved_already (api e) = e.code == "already_saved" || e.status == 409
is_saved_already _ = false

unfoldable pub save_error : Thrown → String
save_error (api e) =
    if e.code == "already_saved" || e.status == 409
    then "This article is already in your library"
    else if e.status == 422
    then "Couldn't extract content from this URL"
    else if leb 500 e.status
    then "Couldn't save — please try again"
    else or_text e.message "Couldn't save — please try again"
save_error _ = "Couldn't save — please try again"

-- `onSubmit`, by the end of the request
unfoldable pub submit_link : Result LibraryItem → Form
submit_link r = settle (λ _. toast_success "Saved to library" ∷ []) (λ e. failed (save_error e)) r

-- `onSaveToLibrary` of MatchReader.tsx
unfoldable save_match : Result LibraryItem → List Effect
save_match (ok _) = toast_success "Saved to library" ∷ []
save_match (err e) =
    if is_saved_already e
    then toast_info "Already in library" ∷ []
    else toast_error "Could not save" ∷ []

-- `onPaste`: the value put into the field, if any, and the message. The text is trimmed; none is a
-- clipboard that cannot be read.
unfoldable pub paste : Option String → Option String × List Effect
paste none = (none, toast_error "Couldn't read the clipboard — paste manually" ∷ [])
paste (some text) =
    if text == "" then (none, toast_error "Clipboard is empty" ∷ []) else (some text, [])
