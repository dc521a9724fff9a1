-- ===== src/Library/Actions.antt =====
-- web/src/features/library/use-item-actions.tsx: what the buttons on an item ask for, and what the
-- user is told.
pub mod Toggles
use linktheca.Prelude.{
  ℕ, String, Bool, true, false, Option, none, some, List, [], ◌∷◌, not, if◌then◌else◌,
}
use linktheca.Web.App.{Effect, toast_success, toast_error, Result, ok, err}
use linktheca.Library.Types.{LibraryState, unread, read, archived, LibraryItem}
use linktheca.Library.Requests.{UpdateInput}

-- A call of `update.mutate`: the patch, and the messages of its two outcomes.
pub record Patch : Type 0 where
  pub input : UpdateInput
  pub success : Option String
  pub failure : String

abbrev pub only_state : LibraryState → UpdateInput
only_state s = record { state = some s; is_favorite = none; note = none }

abbrev pub is_read : LibraryItem → Bool
is_read item = elim item.state [ read ↦ true | _ ↦ false ]

abbrev pub is_archived : LibraryItem → Bool
is_archived item = elim item.state [ archived ↦ true | _ ↦ false ]

unfoldable patch_state : LibraryState → String → String → Patch
patch_state state success failure = record {
  input = only_state state;
  success = some success;
  failure = failure;
}

-- The flag says whether the reader's automatic marking is told to stand down.
unfoldable pub toggle_read : LibraryItem → Patch × Bool
unfolding patch_state
toggle_read item = (
  if is_read item
      then patch_state unread "Marked as unread" "Couldn't update state"
      else patch_state read "Marked as read" "Couldn't update state",
  true,
)

unfoldable pub toggle_archive : LibraryItem → Patch
unfolding patch_state
toggle_archive item =
    if is_archived item
    then patch_state unread "Moved to unread" "Couldn't unarchive"
    else patch_state archived "Archived" "Couldn't archive"

unfoldable pub toggle_favorite : LibraryItem → Patch
toggle_favorite item = record {
  input = record { state = none; is_favorite = some (not item.is_favorite); note = none };
  success = none;
  failure = "Couldn't update favorite";
}

-- What the user is told when the mutation has ended.
unfoldable pub report {ℓ} : {A : Type ℓ} → Patch → Result A → List Effect
report p (ok a) = elim p.success [ none ↦ [] | some s ↦ toast_success s ∷ [] ]
report p (err e) = toast_error p.failure ∷ []

-- After `confirmDelete`: the messages, whether the question is still open, whether `onDeleted` runs.
pub record Deleted : Type 0 where
  pub told : List Effect
  pub confirm_open : Bool
  pub gone : Bool

unfoldable pub confirm_delete : Result (Unit {0}) → Deleted
confirm_delete (ok _) = record {
  told = toast_success "Deleted" ∷ [];
  confirm_open = false;
  gone = true;
}
confirm_delete (err e) = record {
  told = toast_error "Couldn't delete" ∷ [];
  confirm_open = false;
  gone = false;
}
