-- ===== src/Web/Dialog/Bound.antt =====
-- How many requests of a dialog of web/src can be on their way at once.
use linktheca.Prelude.{
  ℕ, suc, ◌+◌, ◌≤◌, ◌≡◌, String, true, false, Option, none, some, List, [], ◌∷◌, arith, length,
  nat_eq, if_elim, if◌then◌else◌,
}
use linktheca.Web.App.{Result}
use linktheca.Web.Form.{Form}
use linktheca.Web.Dialog.{
  Handlers, Mounted, Dialog, Event, open_dialog, dismiss, change, submit, settled, mem, remove,
  open_with, change_with, send, validated, submit_with, shown, finish, settle_request, step, run,
  closed,
}
use linktheca.Web.Dialog.Flights.{length-remove}
use linktheca.Web.Dialog.Invariant.{IsValid, closed-IsValid, step-IsValid}

module _ {S V R : Type 0} where
  abbrev pub dismissals : List (Event S V R) → ℕ
  dismissals [] = 0
  dismissals (dismiss ∷ es) = suc (dismissals es)
  dismissals (open_dialog x ∷ es) = dismissals es
  dismissals (change v ∷ es) = dismissals es
  dismissals (submit ∷ es) = dismissals es
  dismissals (settled n r ∷ es) = dismissals es

  split :
      (e : Event S V R) (es : List (Event S V R))
      → dismissals (e ∷ es) ≡ dismissals (e ∷ []) + dismissals es
  split (open_dialog x) es = omega arith
  split dismiss es = omega arith
  split (change v) es = omega arith
  split submit es = omega arith
  split (settled n r) es = omega arith

module _ {S V : Type 0} where
  abbrev waiting : Option (Mounted S V) → ℕ
  waiting none = 0
  waiting (some f) = if f.is_pending then 1 else 0

  waiting-le : (o : Option (Mounted S V)) → waiting o ≤ 1
  waiting-le none = omega arith
  waiting-le (some f) = ground arith

module _ {S V P R : Type 0} (h : Handlers S V P R) where
  abbrev Bounded : ℕ → Dialog S V P → Type 0
  Bounded d s = length s.in_flight ≤ d + waiting s.form

  open_with-Bounded :
      (d : ℕ) (o : Option (Mounted S V)) (x : S) (s : Dialog S V P)
      → Bounded d (record s { form = o })
      → Bounded d (open_with h o x (record s { form = o }))
  unfolding open_with
  open_with-Bounded d none x s b = b
  open_with-Bounded d (some f) x s b = b

  change_with-Bounded :
      (d : ℕ) (o : Option (Mounted S V)) (x : V) (s : Dialog S V P)
      → Bounded d (record s { form = o })
      → Bounded d (change_with h o x (record s { form = o }))
  unfolding change_with
  change_with-Bounded d none x s b = b
  change_with-Bounded d (some f) x s b = if_elim (Bounded d) f.is_pending (λ e. b) (λ e. b)

  validated-Bounded :
      (d : ℕ) (f : Mounted S V) (es : List (String × String)) (s : Dialog S V P)
      → f.is_pending ≡ false
      → Bounded d (record s { form = some f })
      → Bounded d (validated h f es (record s { form = some f }))
  unfolding validated
  validated-Bounded d f (x ∷ xs) s e b = b
  validated-Bounded d f [] s e b = sent (h.request f.subject f.values)
    where
      sent : (p : Option P) → Bounded d (send h f p (record s { form = some f }))
      sent none = ground arith
      sent (some p) = ground arith

  submit_with-Bounded :
      (d : ℕ) (o : Option (Mounted S V)) (s : Dialog S V P)
      → Bounded d (record s { form = o })
      → Bounded d (submit_with h o (record s { form = o }))
  unfolding submit_with
  submit_with-Bounded d none s b = b
  submit_with-Bounded d (some f) s b =
      if_elim (Bounded d) f.is_pending (λ e. b)
        (λ e. validated-Bounded d f (h.field_errors f.values) s e b)

  -- One request less, and the form waits no more, or no less than before.
  waiting-shown :
      (n : ℕ) (r : Form) (o : Option (Mounted S V)) → waiting o ≤ suc (waiting (shown h n r o))
  waiting-shown n r none = omega arith
  waiting-shown n r (some f) = ground arith

  finish-Bounded :
      (d n : ℕ) (r : Form) (s : Dialog S V P)
      → IsValid s
      → mem n s.in_flight ≡ true
      → Bounded d s
      → Bounded d (finish h n r (record s { in_flight = remove n s.in_flight }))
  unfolding finish
  finish-Bounded d n r s v m b =
      let shorter = length-remove n s.in_flight v.distinct m in
      if_elim (Bounded d) r.closed (λ e. omega (arith, waiting-le s.form))
        (λ e. omega (arith, waiting-shown n r s.form))

  settle_request-Bounded :
      (d n : ℕ) (r : Result R) (s : Dialog S V P)
      → IsValid s
      → Bounded d s
      → Bounded d (settle_request h n r s)
  unfolding settle_request
  settle_request-Bounded d n r s v b =
      if_elim (Bounded d) (mem n s.in_flight) (λ m. finish-Bounded d n (h.conclude r) s v m b)
        (λ m. b)

  step-Bounded :
      (d : ℕ) (e : Event S V R) (s : Dialog S V P)
      → IsValid s
      → Bounded d s
      → Bounded (d + dismissals (e ∷ [])) (step h e s)
  unfolding step
  step-Bounded d (open_dialog x) s v b = omega (arith, open_with-Bounded d s.form x s b)
  step-Bounded d dismiss s v b = omega (arith, waiting-le s.form)
  step-Bounded d (change x) s v b = omega (arith, change_with-Bounded d s.form x s b)
  step-Bounded d submit s v b = omega (arith, submit_with-Bounded d s.form s b)
  step-Bounded d (settled n r) s v b = omega (arith, settle_request-Bounded d n r s v b)

  run-Bounded :
      (d : ℕ) (es : List (Event S V R)) (s : Dialog S V P)
      → IsValid s
      → Bounded d s
      → Bounded (d + dismissals es) (run h es s)
  unfolding run
  run-Bounded d [] s v b = omega arith
  run-Bounded d (e ∷ es) s v b = omega (
    arith,
    split e es,
    run-Bounded (d + dismissals (e ∷ [])) es (step h e s) (step-IsValid h e s v)
        (step-Bounded d e s v b),
  )

  -- In any order of events from a closed dialog, at most one request is on its way more than the
  -- dialog was dismissed.
  pub in_flight_bound :
      (es : List (Event S V R)) → length (run h es closed).in_flight ≤ dismissals es + 1
  in_flight_bound es = omega (
    arith,
    run-Bounded 0 es closed closed-IsValid (omega arith),
    waiting-le (run h es closed).form,
  )
