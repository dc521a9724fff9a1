-- ===== src/Web/Dialog/Invariant.antt =====
-- What holds of a dialog between two events.
use linktheca.Prelude.{
  ℕ, ◌<◌, ◌≡◌, sym, ◌∙◌, String, false, Option, none, some, List, [], ◌∷◌, arith, ◌==◌, nat_eq,
  Bool-cases, inl, inr, if_elim,
}
use linktheca.Web.App.{Result}
use linktheca.Web.Form.{Form}
use linktheca.Web.Dialog.{
  Handlers, Mounted, Dialog, Event, open_dialog, dismiss, change, submit, settled, mem, remove,
  open_with, change_with, send, validated, submit_with, shown, finish, settle_request, step, run,
  closed,
}
use linktheca.Web.Dialog.Flights.{
  Below, Distinct, Below-suc, mem-Below, mem-remove, remove-Below, remove-Distinct,
}

module _ {S V : Type 0} where
  -- A form waits exactly if its own request is on its way.
  abbrev pub FormWaits : ℕ → List ℕ → Option (Mounted S V) → Type 0
  FormWaits k ns none = Unit
  FormWaits k ns (some f) = (f.number < k) × (f.is_pending ≡ mem f.number ns)

pub record IsValid {S V P : Type 0} (s : Dialog S V P) : Type 0 where
  pub below : Below s.mounts s.in_flight
  pub distinct : Distinct s.in_flight
  pub waits : FormWaits s.mounts s.in_flight s.form

pub closed-IsValid : {S V P : Type 0} → IsValid (closed {S = S} {V = V} {P = P})
closed-IsValid = record { below = tt; distinct = tt; waits = tt }

module _ {S V P R : Type 0} (h : Handlers S V P R) where
  -- One lemma for each event.
  open_with-IsValid :
      (o : Option (Mounted S V)) (x : S) (s : Dialog S V P)
      → IsValid (record s { form = o })
      → IsValid (open_with h o x (record s { form = o }))
  unfolding open_with
  open_with-IsValid (some f) x s v = v
  open_with-IsValid none x s v = record {
    below = Below-suc s.mounts s.in_flight v.below;
    distinct = v.distinct;
    waits = (omega arith, sym (mem-Below s.mounts s.in_flight v.below));
  }

  change_with-IsValid :
      (o : Option (Mounted S V)) (x : V) (s : Dialog S V P)
      → IsValid (record s { form = o })
      → IsValid (change_with h o x (record s { form = o }))
  unfolding change_with
  change_with-IsValid none x s v = v
  change_with-IsValid (some f) x s v =
      if_elim IsValid f.is_pending (λ e. v)
        (λ e. record { below = v.below; distinct = v.distinct; waits = v.waits })

  send-IsValid :
      (f : Mounted S V) (p : Option P) (s : Dialog S V P)
      → f.is_pending ≡ false
      → IsValid (record s { form = some f })
      → IsValid (send h f p (record s { form = some f }))
  unfolding send
  send-IsValid f none s e v = record { below = v.below; distinct = v.distinct; waits = tt }
  send-IsValid f (some p) s e v = record {
    below = (v.waits.0, v.below);
    distinct = (sym v.waits.1 ∙ e, v.distinct);
    waits = (v.waits.0, ground arith);
  }

  validated-IsValid :
      (f : Mounted S V) (es : List (String × String)) (s : Dialog S V P)
      → f.is_pending ≡ false
      → IsValid (record s { form = some f })
      → IsValid (validated h f es (record s { form = some f }))
  unfolding validated
  validated-IsValid f [] s e v = send-IsValid f (h.request f.subject f.values) s e v
  validated-IsValid f (x ∷ xs) s e v = record {
    below = v.below;
    distinct = v.distinct;
    waits = v.waits;
  }

  submit_with-IsValid :
      (o : Option (Mounted S V)) (s : Dialog S V P)
      → IsValid (record s { form = o })
      → IsValid (submit_with h o (record s { form = o }))
  unfolding submit_with
  submit_with-IsValid none s v = v
  submit_with-IsValid (some f) s v =
      if_elim IsValid f.is_pending (λ e. v)
        (λ e. validated-IsValid f (h.field_errors f.values) s e v)

  shown-FormWaits :
      (n : ℕ) (r : Form) (k : ℕ) (ns : List ℕ) (o : Option (Mounted S V))
      → FormWaits k ns o
      → FormWaits k (remove n ns) (shown h n r o)
  shown-FormWaits n r k ns none w = tt
  shown-FormWaits n r k ns (some f) w = elim (Bool-cases (f.number == n)) [
    | inl e ↦ rw e (w.0, rw (mem-remove f.number n ns, e))
    | inr e ↦ rw e (w.0, w.1 ∙ rw (mem-remove f.number n ns, e))
  ]

  finish-IsValid :
      (n : ℕ) (r : Form) (s : Dialog S V P)
      → IsValid s
      → IsValid (finish h n r (record s { in_flight = remove n s.in_flight }))
  unfolding finish
  finish-IsValid n r s v = elim (Bool-cases r.closed) [
    | inl e ↦ rw e (record {
      below = remove-Below s.mounts n s.in_flight v.below;
      distinct = remove-Distinct n s.in_flight v.distinct;
      waits = tt;
    })
    | inr e ↦ rw e (record {
      below = remove-Below s.mounts n s.in_flight v.below;
      distinct = remove-Distinct n s.in_flight v.distinct;
      waits = shown-FormWaits n r s.mounts s.in_flight s.form v.waits;
    })
  ]

  settle_request-IsValid :
      (n : ℕ) (r : Result R) (s : Dialog S V P) → IsValid s → IsValid (settle_request h n r s)
  unfolding settle_request
  settle_request-IsValid n r s v = elim (Bool-cases (mem n s.in_flight)) [
    | inl e ↦ rw e (finish-IsValid n (h.conclude r) s v)
    | inr e ↦ rw e v
  ]

  pub step-IsValid : (e : Event S V R) (s : Dialog S V P) → IsValid s → IsValid (step h e s)
  unfolding step
  step-IsValid (open_dialog x) s v = open_with-IsValid s.form x s v
  step-IsValid dismiss s v = record { below = v.below; distinct = v.distinct; waits = tt }
  step-IsValid (change x) s v = change_with-IsValid s.form x s v
  step-IsValid submit s v = submit_with-IsValid s.form s v
  step-IsValid (settled n r) s v = settle_request-IsValid n r s v

  run-IsValid : (es : List (Event S V R)) (s : Dialog S V P) → IsValid s → IsValid (run h es s)
  unfolding run
  run-IsValid [] s v = v
  run-IsValid (e ∷ es) s v = run-IsValid es (step h e s) (step-IsValid e s v)
