-- ===== src/Web/Dialog.antt =====
-- The dialogs with a form, which share their shape: AddLinkDialog.tsx of
-- web/src/features/library/components, and NewTopicDialog.tsx, EditTopicDialog.tsx,
-- AddFeedDialog.tsx and EditFeedDialog.tsx of web/src/features/radar/components. The form is mounted
-- while the dialog is open, and its `onSubmit` goes on after the form is gone.
pub mod Flights
pub mod Invariant
pub mod Bound
pub mod Refinement
pub mod Closing
pub mod Sending
use linktheca.Prelude.{
  ℕ, suc, String, Bool, true, false, not, Option, none, some, List, [], ◌∷◌, ◌++◌, any, filter,
  ◌==◌, nat_eq, if◌then◌else◌,
}
use linktheca.Web.App.{Effect, Result}
use linktheca.Web.Form.{Form}

-- What the dialogs differ in: a form on a subject `S`, with values `V`, whose request `P` is answered
-- by `R`. No request is a form that closes at once.
pub record Handlers (S V P R : Type 0) : Type 0 where
  pub defaults : S → V
  pub field_errors : V → List (String × String)
  pub request : S → V → Option P
  pub conclude : Result R → Form

-- A form on the page; `number` tells one mount from another.
pub record Mounted (S V : Type 0) : Type 0 where
  pub number : ℕ
  pub subject : S
  pub values : V
  pub errors : List (String × String)
  pub top_error : Option String
  pub is_submitted : Bool
  pub is_pending : Bool

-- `in_flight` has the mounts whose request is on its way. `sent` and `told` have the newest first.
pub record Dialog (S V P : Type 0) : Type 0 where
  pub form : Option (Mounted S V)
  pub mounts : ℕ
  pub in_flight : List ℕ
  pub sent : List P
  pub told : List Effect

-- `dismiss` is "Cancel", the cross, the Escape key, or a click beside the dialog.
pub data Event (S V R : Type 0) : Type 0 where
  open_dialog : S → Event S V R
  dismiss : Event S V R
  change : V → Event S V R
  submit : Event S V R
  settled : ℕ → Result R → Event S V R

abbrev pub mem : ℕ → List ℕ → Bool
mem n ns = any (λ m. m == n) ns

abbrev pub remove : ℕ → List ℕ → List ℕ
remove n ns = filter (λ m. not (m == n)) ns

module _ {S V P R : Type 0} (h : Handlers S V P R) where
  abbrev pub mount : ℕ → S → Mounted S V
  mount n x = record {
    number = n;
    subject = x;
    values = h.defaults x;
    errors = [];
    top_error = none;
    is_submitted = false;
    is_pending = false;
  }

  unfoldable pub open_with : Option (Mounted S V) → S → Dialog S V P → Dialog S V P
  open_with (some f) x s = s
  open_with none x s = record s { form = some (mount s.mounts x); mounts = suc s.mounts }

  -- The fields are disabled while a request is on its way. After the first submit each change is
  -- validated.
  unfoldable pub change_with : Option (Mounted S V) → V → Dialog S V P → Dialog S V P
  change_with none v s = s
  change_with (some f) v s = if f.is_pending then s else record s {
    form =
        some
          (record f { values = v; errors = if f.is_submitted then h.field_errors v else f.errors });
  }

  -- `await mutateAsync(…)`, or `onClose()` where there is nothing to send
  unfoldable pub send : Mounted S V → Option P → Dialog S V P → Dialog S V P
  send f none s = record s { form = none }
  send f (some p) s = record s {
    form =
        some (record f { errors = []; top_error = none; is_submitted = true; is_pending = true });
    in_flight = f.number ∷ s.in_flight;
    sent = p ∷ s.sent;
  }

  -- `handleSubmit`
  unfoldable pub validated : Mounted S V → List (String × String) → Dialog S V P → Dialog S V P
  unfolding send
  validated f [] s = send f (h.request f.subject f.values) s
  validated f (e ∷ es) s = record s {
    form = some (record f { errors = e ∷ es; is_submitted = true });
  }

  -- The button is disabled while a request is on its way.
  unfoldable pub submit_with : Option (Mounted S V) → Dialog S V P → Dialog S V P
  unfolding validated
  submit_with none s = s
  submit_with (some f) s = if f.is_pending then s else validated f (h.field_errors f.values) s

  -- `setTopError(…)`, which does nothing for a form that is gone
  abbrev pub shown : ℕ → Form → Option (Mounted S V) → Option (Mounted S V)
  shown n r none = none
  shown n r (some f) =
      some (if f.number == n then record f { top_error = r.top_error; is_pending = false } else f)

  -- The rest of `onSubmit`: `onClose()` closes the dialog, whichever form it shows.
  unfoldable pub finish : ℕ → Form → Dialog S V P → Dialog S V P
  finish n r s =
      if r.closed
      then record s { form = none; told = r.told ++ s.told }
      else record s { form = shown n r s.form }

  unfoldable pub settle_request : ℕ → Result R → Dialog S V P → Dialog S V P
  unfolding finish
  settle_request n r s =
      if mem n s.in_flight
      then finish n (h.conclude r) (record s { in_flight = remove n s.in_flight })
      else s

  unfoldable pub step : Event S V R → Dialog S V P → Dialog S V P
  unfolding open_with change_with submit_with settle_request
  step (open_dialog x) s = open_with s.form x s
  step dismiss s = record s { form = none }
  step (change v) s = change_with s.form v s
  step submit s = submit_with s.form s
  step (settled n r) s = settle_request n r s

  unfoldable pub run : List (Event S V R) → Dialog S V P → Dialog S V P
  unfolding step
  run [] s = s
  run (e ∷ es) s = run es (step e s)

-- Before the first use.
abbrev pub closed : {S V P : Type 0} → Dialog S V P
closed = record { form = none; mounts = 0; in_flight = []; sent = []; told = [] }
