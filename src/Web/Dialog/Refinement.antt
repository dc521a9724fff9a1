-- ===== src/Web/Dialog/Refinement.antt =====
-- The dialogs of web/src as their user sees them, who lets a request end before the dialog is closed:
-- a machine that knows no mounts and no list of requests.
use linktheca.Prelude.{
  ℕ, ◌≡◌, refl, ◌∙◌, ap, String, Bool, true, false, Option, none, some, List, [], ◌∷◌, ◌++◌, arith,
  nat_eq, if◌then◌else◌,
}
use linktheca.Web.App.{Effect, Result}
use linktheca.Web.Form.{Form}
use linktheca.Web.Dialog.{
  Handlers, Mounted, Dialog, Event, open_dialog, dismiss, change, submit, settled, mem, open_with,
  change_with, send, validated, submit_with, finish, settle_request, step, run,
}

pub data Phase (S V : Type 0) : Type 0 where
  hidden : Phase S V
  editing : S → V → Option String → Phase S V
  saving : S → V → Phase S V

pub record Seen (S V P : Type 0) : Type 0 where
  pub phase : Phase S V
  pub sent : List P
  pub told : List Effect

pub data Action (S V R : Type 0) : Type 0 where
  show : S → Action S V R
  hide save : Action S V R
  edit : V → Action S V R
  answer : Result R → Action S V R

module _ {S V R : Type 0} where
  abbrev action_of : Event S V R → Action S V R
  action_of (open_dialog x) = show x
  action_of dismiss = hide
  action_of (change v) = edit v
  action_of submit = save
  action_of (settled n r) = answer r

module _ {S V P R : Type 0} (h : Handlers S V P R) where
  abbrev request_of : S → V → Option P → Seen S V P → Seen S V P
  request_of x v none t = record t { phase = hidden }
  request_of x v (some p) t = record t { phase = saving x v; sent = p ∷ t.sent }

  abbrev save_of : S → V → Option String → List (String × String) → Seen S V P → Seen S V P
  save_of x v m [] t = request_of x v (h.request x v) t
  save_of x v m (e ∷ es) t = record t { phase = editing x v m }

  abbrev answer_of : S → V → Form → Seen S V P → Seen S V P
  answer_of x v r t =
      if r.closed
      then record t { phase = hidden; told = r.told ++ t.told }
      else record t { phase = editing x v r.top_error }

  -- What an action does in each phase; the others do nothing.
  abbrev pub act : Action S V R → Phase S V → Seen S V P → Seen S V P
  act (show x) hidden t = record t { phase = editing x (h.defaults x) none }
  act hide (editing x v m) t = record t { phase = hidden }
  act (edit w) (editing x v m) t = record t { phase = editing x w m }
  act save (editing x v m) t = save_of x v m (h.field_errors v) t
  act (answer r) (saving x v) t = answer_of x v (h.conclude r) t
  act a p t = t

  abbrev pub act_all : List (Event S V R) → Seen S V P → Seen S V P
  act_all [] t = t
  act_all (e ∷ es) t = act_all es (act (action_of e) t.phase t)

module _ {S V : Type 0} where
  abbrev phase_of : Option (Mounted S V) → Phase S V
  phase_of none = hidden
  phase_of (some f) =
      if f.is_pending then saving f.subject f.values else editing f.subject f.values f.top_error

  -- The request of the form shown, if it waits, is the only one on its way.
  abbrev pub flights : Option (Mounted S V) → List ℕ
  flights none = []
  flights (some f) = if f.is_pending then f.number ∷ [] else []

  abbrev is_waiting : Option (Mounted S V) → Bool
  is_waiting none = false
  is_waiting (some f) = f.is_pending

module _ {S V P : Type 0} where
  abbrev pub seen : Dialog S V P → Seen S V P
  seen s = record { phase = phase_of s.form; sent = s.sent; told = s.told }

module _ {S V P R : Type 0} (h : Handlers S V P R) where
  -- The dialog is not closed while it waits, and answers come to requests on their way.
  abbrev Patient : Event S V R → Dialog S V P → Type 0
  Patient (settled n r) s = mem n s.in_flight ≡ true
  Patient dismiss s = is_waiting s.form ≡ false
  Patient (open_dialog x) s = Unit
  Patient (change v) s = Unit
  Patient submit s = Unit

  abbrev AllPatient : List (Event S V R) → Dialog S V P → Type 0
  AllPatient [] s = Unit
  AllPatient (e ∷ es) s = Patient e s × AllPatient es (step h e s)

  -- One step, as a state of the machine and its own list of requests.
  abbrev Refines : Dialog S V P → Seen S V P → Type 0
  Refines s t = (seen s ≡ t) × (s.in_flight ≡ flights s.form)

  open_with-Refines :
      (o : Option (Mounted S V)) (x : S) (s : Dialog S V P)
      → s.in_flight ≡ flights o
      → Refines
          (open_with h o x (record s { form = o }))
          (act h (show x) (phase_of o) (seen (record s { form = o })))
  unfolding open_with
  open_with-Refines none x s i = ground arith
  open_with-Refines (some f) x s i = ground arith

  change_with-Refines :
      (o : Option (Mounted S V)) (v : V) (s : Dialog S V P)
      → s.in_flight ≡ flights o
      → Refines
          (change_with h o v (record s { form = o }))
          (act h (edit v) (phase_of o) (seen (record s { form = o })))
  unfolding change_with
  change_with-Refines none v s i = ground arith
  change_with-Refines (some f) v s i = ground arith

  dismiss-Refines :
      (o : Option (Mounted S V)) (s : Dialog S V P)
      → s.in_flight ≡ flights o
      → is_waiting o ≡ false
      → Refines (record s { form = none }) (act h hide (phase_of o) (seen (record s { form = o })))
  dismiss-Refines none s i w = ground arith
  dismiss-Refines (some f) s i w = ground arith

  submit_with-Refines :
      (o : Option (Mounted S V)) (s : Dialog S V P)
      → s.in_flight ≡ flights o
      → Refines
          (submit_with h o (record s { form = o }))
          (act h save (phase_of o) (seen (record s { form = o })))
  unfolding submit_with validated send
  submit_with-Refines none s i = ground arith
  submit_with-Refines (some f) s i = ground arith

  settle_request-Refines :
      (n : ℕ) (r : Result R) (o : Option (Mounted S V)) (s : Dialog S V P)
      → s.in_flight ≡ flights o
      → mem n s.in_flight ≡ true
      → Refines
          (settle_request h n r (record s { form = o }))
          (act h (answer r) (phase_of o) (seen (record s { form = o })))
  unfolding settle_request finish
  settle_request-Refines n r none s i m = ground arith
  settle_request-Refines n r (some f) s i m = ground arith

  step-Refines :
      (e : Event S V R) (s : Dialog S V P)
      → s.in_flight ≡ flights s.form
      → Patient e s
      → Refines (step h e s) (act h (action_of e) (phase_of s.form) (seen s))
  unfolding step
  step-Refines (open_dialog x) s i p = open_with-Refines s.form x s i
  step-Refines dismiss s i p = dismiss-Refines s.form s i p
  step-Refines (change v) s i p = change_with-Refines s.form v s i
  step-Refines submit s i p = submit_with-Refines s.form s i
  step-Refines (settled n r) s i p = settle_request-Refines n r s.form s i p

  -- From a dialog whose one request on its way, if any, is that of the form shown, in any order of
  -- events of which none closes the dialog while it waits and each answer comes to a request on its
  -- way, the dialog reads as a machine that is hidden, editing or saving, and its one request on
  -- its way, if any, is still that of the form shown.
  pub run_refines :
      (es : List (Event S V R)) (s : Dialog S V P)
      → s.in_flight ≡ flights s.form
      → AllPatient es s
      → (seen (run h es s) ≡ act_all h es (seen s))
        × ((run h es s).in_flight ≡ flights (run h es s).form)
  unfolding run
  run_refines [] s i p = (refl, i)
  run_refines (e ∷ es) s i p =
      let r = step-Refines e s i p.0 in
      let q = run_refines es (step h e s) r.1 p.1 in (q.0 ∙ ap (act_all h es) r.0, q.1)
