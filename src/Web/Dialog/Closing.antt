-- ===== src/Web/Dialog/Closing.antt =====
-- What becomes of a dialog of web/src that is closed while its request is on its way, and opened
-- again.
use linktheca.Prelude.{
  ℕ, ◌≡◌, refl, sym, ◌∙◌, ap, subst, suc, true, false, none, some, List, [], ◌∷◌, arith, map,
  if◌then◌else◌,
}
use linktheca.Web.App.{Result, ok}
use linktheca.Web.Dialog.{
  Handlers, Mounted, Dialog, open_dialog, dismiss, change, settled, mem, mount, open_with,
  change_with, finish, settle_request, step, run,
}
use linktheca.Web.Dialog.Invariant.{IsValid, FormWaits}

module _ {V : Type 0} where
  -- What the fields hold after the changes.
  abbrev pub last_of : V → List V → V
  last_of v [] = v
  last_of v (w ∷ ws) = last_of w ws

module _ {S V P R : Type 0} (h : Handlers S V P R) where
  abbrev taken : Mounted S V → V → Mounted S V
  taken f v = record f {
    values = v;
    errors = if f.is_submitted then h.field_errors v else f.errors;
  }

  change-taken :
      (f : Mounted S V) (v : V) (s : Dialog S V P)
      → f.is_pending ≡ false
      → change_with h (some f) v (record s { form = some f }) ≡ record s { form = some (taken f v) }
  unfolding change_with
  change-taken f v s e = ground arith

  -- A form that does not wait takes every change.
  run-changes :
      (vs : List V) (f : Mounted S V) (s : Dialog S V P)
      → f.is_pending ≡ false
      → (g : Mounted S V) × (run h (map change vs) (record s { form = some f })
          ≡ record s { form = some g })
        × (g.values ≡ last_of f.values vs)
  unfolding run step
  run-changes [] f s e = (f, refl, refl)
  run-changes (v ∷ vs) f s e =
      let (g, reached, held) = run-changes vs (taken f v) s e in
      (g, ap (run h (map change vs)) (change-taken f v s e) ∙ reached, held)

  settled-closes :
      (n : ℕ) (r : Result R) (s : Dialog S V P)
      → mem n s.in_flight ≡ true
      → (h.conclude r).closed ≡ true
      → (settle_request h n r s).form ≡ none
  unfolding settle_request finish
  settled-closes n r s m c = ground arith

  waiting-mem :
      (s : Dialog S V P) (f : Mounted S V)
      → IsValid s
      → s.form ≡ some f
      → f.is_pending ≡ true
      → mem f.number s.in_flight ≡ true
  waiting-mem s f v e w = sym (subst (FormWaits s.mounts s.in_flight) e v.waits).1 ∙ w

  -- If a dialog is dismissed while its request is on its way, opened again and filled in, and the
  -- request then succeeds with an answer on which the form closes, the dialog is closed over the
  -- new form with what was entered.
  pub stale_success_closes :
      (s : Dialog S V P) (f : Mounted S V) (x : S) (vs : List V) (a : R)
      → IsValid s
      → s.form ≡ some f
      → f.is_pending ≡ true
      → (h.conclude (ok a)).closed ≡ true
      → let t = run h (dismiss ∷ open_dialog x ∷ map change vs) s in
        ((g : Mounted S V) × (t.form ≡ some g) × (g.values ≡ last_of (h.defaults x) vs))
        × ((step h (settled f.number (ok a)) t).form ≡ none)
  unfolding run step open_with
  stale_success_closes s f x vs a v e w c =
      let fresh : Dialog S V P = record s { mounts = suc s.mounts } in
      let (g, reached, held) = run-changes vs (mount h s.mounts x) fresh refl in
      (
        (g, ap (λ (t : Dialog S V P). t.form) reached, held),
        rw reached (
            settled-closes f.number (ok a) (record fresh { form = some g }) (waiting-mem s f v e w)
              c),
      )
