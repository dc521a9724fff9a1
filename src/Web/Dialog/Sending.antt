-- ===== src/Web/Dialog/Sending.antt =====
-- What the dialogs of web/src send: only what `onSubmit` is given by `handleSubmit`, which validates.
use linktheca.Prelude.{ℕ, ◌≡◌, refl, String, Option, none, some, List, [], ◌∷◌, All, if_elim}
use linktheca.Web.App.{Result}
use linktheca.Web.Dialog.{
  Handlers, Mounted, Dialog, Event, open_dialog, dismiss, change, submit, settled, mem, open_with,
  change_with, send, validated, submit_with, finish, settle_request, step, run,
}

module _ {S V P R : Type 0} (h : Handlers S V P R) where
  -- What is made of a subject and valid values is of the kind.
  abbrev pub Makes : (P → Type 0) → Type 0
  Makes Q = (x : S) (v : V) (p : P) → h.field_errors v ≡ [] → h.request x v ≡ some p → Q p

  module _ (Q : P → Type 0) (makes : Makes Q) where
    abbrev Sent : Dialog S V P → Type 0
    Sent s = All Q s.sent

    open_with-Sent :
        (o : Option (Mounted S V)) (x : S) (s : Dialog S V P) → Sent s → Sent (open_with h o x s)
    unfolding open_with
    open_with-Sent none x s q = q
    open_with-Sent (some f) x s q = q

    change_with-Sent :
        (o : Option (Mounted S V)) (v : V) (s : Dialog S V P) → Sent s → Sent (change_with h o v s)
    unfolding change_with
    change_with-Sent none v s q = q
    change_with-Sent (some f) v s q = if_elim Sent f.is_pending (λ e. q) (λ e. q)

    send-Sent :
        (f : Mounted S V) (o : Option P) (s : Dialog S V P)
        → ((p : P) → o ≡ some p → Q p)
        → Sent s
        → Sent (send h f o s)
    unfolding send
    send-Sent f none s made q = q
    send-Sent f (some p) s made q = (made p refl, q)

    validated-Sent :
        (f : Mounted S V) (es : List (String × String)) (s : Dialog S V P)
        → h.field_errors f.values ≡ es
        → Sent s
        → Sent (validated h f es s)
    unfolding validated
    validated-Sent f [] s valid q =
        send-Sent f (h.request f.subject f.values) s (λ p. makes f.subject f.values p valid) q
    validated-Sent f (e ∷ es) s valid q = q

    submit_with-Sent :
        (o : Option (Mounted S V)) (s : Dialog S V P) → Sent s → Sent (submit_with h o s)
    unfolding submit_with
    submit_with-Sent none s q = q
    submit_with-Sent (some f) s q =
        if_elim Sent f.is_pending (λ e. q)
          (λ e. validated-Sent f (h.field_errors f.values) s refl q)

    settle_request-Sent :
        (n : ℕ) (r : Result R) (s : Dialog S V P) → Sent s → Sent (settle_request h n r s)
    unfolding settle_request finish
    settle_request-Sent n r s q =
        if_elim Sent (mem n s.in_flight) (λ e. if_elim Sent (h.conclude r).closed (λ c. q) (λ c. q))
          (λ e. q)

    step-Sent : (e : Event S V R) (s : Dialog S V P) → Sent s → Sent (step h e s)
    unfolding step
    step-Sent (open_dialog x) s q = open_with-Sent s.form x s q
    step-Sent dismiss s q = q
    step-Sent (change v) s q = change_with-Sent s.form v s q
    step-Sent submit s q = submit_with-Sent s.form s q
    step-Sent (settled n r) s q = settle_request-Sent n r s q

    pub run-Sent : (es : List (Event S V R)) (s : Dialog S V P) → Sent s → Sent (run h es s)
    unfolding run
    run-Sent [] s q = q
    run-Sent (e ∷ es) s q = run-Sent es (step h e s) (step-Sent e s q)
