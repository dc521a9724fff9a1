-- ===== src/Radar/Sources/Deleting/Asked.antt =====
-- Which deletions the pages of the sources of web/src/routes send, and what they report.
use linktheca.Prelude.{
  ℕ, ◌+◌, ◌≡◌, refl, Bool, true, false, ◌||◌, Option, none, some, List, [], ◌∷◌, arith, length, any,
  is_some, ◌==◌, nat_eq,
}
use linktheca.Web.App.{Result}
use linktheca.Web.View.{offers}
use linktheca.Radar.Types.{FeedListItem}
use linktheca.Radar.Cards.{Display}
use linktheca.Radar.Sources.Pages.{Click, add, cancel, toggle, edit, delete, delete_confirm}
use linktheca.Radar.Sources.Pages
use linktheca.Radar.Sources.Deleting.{
  Deleting, idle, Event, ask, dismiss, confirm, settled, Messages, told_of, confirmed, finished,
  step, run,
}

-- The feeds that the user was asked about.
abbrev pub asked : List Event → List FeedListItem
asked [] = []
asked (ask f ∷ es) = f ∷ asked es
asked (dismiss ∷ es) = asked es
asked (confirm ∷ es) = asked es
asked (settled r ∷ es) = asked es

abbrev pub has_id : ℕ → List FeedListItem → Bool
has_id id fs = any (λ f. f.id == id) fs

abbrev pub mem : ℕ → List ℕ → Bool
mem id ids = any (λ i. i == id) ids

abbrev shows : ℕ → Option FeedListItem → Bool
shows id none = false
shows id (some f) = f.id == id

-- Whether a deletion was sent, or can be sent for what is asked.
abbrev known : ℕ → Deleting → Bool
known id s = mem id s.sent || shows id s.deleting

module _ (m : Messages) where
  confirmed-known :
      (id : ℕ) (fl : Option ℕ) (o : Option FeedListItem) (s : Deleting)
      → known id (confirmed fl o (record s { deleting = o })) ≡ true
      → known id (record s { deleting = o }) ≡ true
  unfolding confirmed
  confirmed-known id (some i) o s k = k
  confirmed-known id none none s k = k
  confirmed-known id none (some f) s k = ground arith

  finished-known :
      (id : ℕ) (fl : Option ℕ) (r : Result (Unit {0})) (s : Deleting)
      → known id (finished m fl r s) ≡ true
      → known id s ≡ true
  unfolding finished
  finished-known id none r s k = k
  finished-known id (some i) r s k = ground arith

  run-known :
      (id : ℕ) (es : List Event) (s : Deleting)
      → known id (run m es s) ≡ true
      → known id s || has_id id (asked es) ≡ true
  unfolding run step
  run-known id [] s k = ground arith
  run-known id (ask f ∷ es) s k = ground (arith, run-known id es (record s { deleting = some f }))
  run-known id (dismiss ∷ es) s k = ground (arith, run-known id es (record s { deleting = none }))
  run-known id (confirm ∷ es) s k = ground (
    arith,
    run-known id es (confirmed s.in_flight s.deleting s),
    confirmed-known id s.in_flight s.deleting s,
  )
  run-known id (settled r ∷ es) s k =
      ground
        (arith, run-known id es (finished m s.in_flight r s), finished-known id s.in_flight r s)

  -- In any order of events from the start, a deletion is sent only for a feed that the user was
  -- asked about.
  deleted_asked :
      (id : ℕ) (es : List Event) → mem id (run m es idle).sent ≡ true → has_id id (asked es) ≡ true
  deleted_asked id es k = ground (arith, run-known id es idle)

abbrev pub is_confirm : Click → Bool
is_confirm c = elim c [
  | Pages.confirm ↦ true
  | add ↦ false
  | cancel ↦ false
  | toggle id b ↦ false
  | edit f ↦ false
  | delete f ↦ false
]

abbrev pub on_its_way : Option ℕ → ℕ
on_its_way none = 0
on_its_way (some id) = 1

abbrev Reported : Deleting → Type 0
Reported s = length s.sent ≡ length s.told + on_its_way s.in_flight

module _ (m : Messages) where
  confirmed-Reported :
      (fl : Option ℕ) (o : Option FeedListItem) (s : Deleting)
      → Reported (record s { in_flight = fl })
      → Reported (confirmed fl o (record s { in_flight = fl }))
  unfolding confirmed
  confirmed-Reported (some i) o s k = k
  confirmed-Reported none none s k = k
  confirmed-Reported none (some f) s k = omega arith

  finished-Reported :
      (fl : Option ℕ) (r : Result (Unit {0})) (s : Deleting)
      → Reported (record s { in_flight = fl })
      → Reported (finished m fl r (record s { in_flight = fl }))
  unfolding finished
  finished-Reported none r s k = k
  finished-Reported (some i) r s k = omega arith

  run-Reported : (es : List Event) (s : Deleting) → Reported s → Reported (run m es s)
  unfolding run step
  run-Reported [] s k = k
  run-Reported (ask f ∷ es) s k = run-Reported es (record s { deleting = some f }) k
  run-Reported (dismiss ∷ es) s k = run-Reported es (record s { deleting = none }) k
  run-Reported (confirm ∷ es) s k =
      run-Reported es (confirmed s.in_flight s.deleting s)
        (confirmed-Reported s.in_flight s.deleting s k)
  run-Reported (settled r ∷ es) s k =
      run-Reported es (finished m s.in_flight r s) (finished-Reported s.in_flight r s k)

  -- In any order of events from the start, the deletions sent are as many as the outcomes reported,
  -- plus one if a deletion is on its way.
  pub deletions_reported :
      (es : List Event)
      → let s = run m es idle in length s.sent ≡ length s.told + on_its_way s.in_flight
  deletions_reported es = run-Reported es idle (omega arith)

  -- If the user asks to delete a feed while the deletion of another one is on its way, the question
  -- has no button that confirms, and the answer closes the question with no deletion sent.
  pub question_lost :
      (d : Display) (s : Deleting) (id : ℕ) (feed : FeedListItem) (r : Result (Unit {0}))
      → s.in_flight ≡ some id
      → (offers is_confirm (delete_confirm d (some feed) (is_some (step m (ask feed) s).in_flight))
          ≡ false)
        × (run m (ask feed ∷ settled r ∷ []) s
            ≡ record s { deleting = none; in_flight = none; told = told_of m r ∷ s.told })
  unfolding run step finished delete_confirm
  question_lost d s id feed r e = (rw e refl, rw e)
