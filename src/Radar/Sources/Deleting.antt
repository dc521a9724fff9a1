-- ===== src/Radar/Sources/Deleting.antt =====
-- The deletion of a feed, with its question, on web/src/routes/radar.sources.tsx and
-- web/src/routes/admin.sources.tsx. The question's button is `AlertDialogAction` of
-- web/src/shared/ui/alert-dialog.tsx, which the package `radix-ui` makes close the dialog.
pub mod Asked
use linktheca.Prelude.{ℕ, String, Bool, true, false, Option, none, some, List, [], ◌∷◌, is_some}
use linktheca.Web.App.{Effect, toast_success, toast_error, Result, ok, err}
use linktheca.Radar.Types.{FeedListItem}

-- `deleting`, and the request on its way. `sent` and `told` have the newest first.
pub record Deleting : Type 0 where
  pub deleting : Option FeedListItem
  pub in_flight : Option ℕ
  pub sent : List ℕ
  pub told : List Effect

abbrev pub idle : Deleting
idle = record { deleting = none; in_flight = none; sent = []; told = [] }

pub data Event : Type 0 where
  ask : FeedListItem → Event
  dismiss confirm : Event
  settled : Result (Unit {0}) → Event

-- The messages of the two pages.
pub record Messages : Type 0 where
  pub success : String
  pub failure : String

abbrev pub personal : Messages
personal = record { success = "Source deleted"; failure = "Could not delete the source" }

abbrev pub global : Messages
global = record { success = "Feed deleted"; failure = "Could not delete the feed" }

abbrev pub told_of : Messages → Result (Unit {0}) → Effect
told_of m (ok _) = toast_success m.success
told_of m (err _) = toast_error m.failure

-- `onConfirm`, and the closing by its button, which is disabled while a request is on its way.
unfoldable pub confirmed : Option ℕ → Option FeedListItem → Deleting → Deleting
confirmed (some id) asked s = s
confirmed none none s = s
confirmed none (some feed) s = record s {
  deleting = none;
  in_flight = some feed.id;
  sent = feed.id ∷ s.sent;
}

-- The end of `onConfirm`, `setDeleting(null)` included.
unfoldable pub finished : Messages → Option ℕ → Result (Unit {0}) → Deleting → Deleting
finished m none r s = s
finished m (some id) r s = record s {
  deleting = none;
  in_flight = none;
  told = told_of m r ∷ s.told;
}

module _ (m : Messages) where
  unfoldable pub step : Event → Deleting → Deleting
  unfolding confirmed finished
  step (ask feed) s = record s { deleting = some feed }
  step dismiss s = record s { deleting = none }
  step confirm s = confirmed s.in_flight s.deleting s
  step (settled r) s = finished m s.in_flight r s

  unfoldable pub run : List Event → Deleting → Deleting
  unfolding step
  run [] s = s
  run (e ∷ es) s = run es (step e s)
