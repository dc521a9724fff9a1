-- ===== src/Library/Reader.antt =====
-- The reader: web/src/features/library/components/useMarkReadOnScroll.tsx, and the part of
-- web/src/routes/library.$id.tsx that marks an article as read.
pub mod Marking
pub mod Page
use linktheca.Prelude.{
  ℕ, suc, ◌+◌, ◌-◌, ◌*◌, Bool, true, false, ◌&&◌, not, ◌==◌, nat_eq, Option, none, some, List, [],
  ◌∷◌, leb, if◌then◌else◌,
}
use linktheca.Library.Types.{LibraryState, unread, read, LibraryItem}
use linktheca.Library.Requests.{UpdateInput}
use linktheca.Library.Actions.{only_state}

-- The document's measures, in pixels.
pub record Position : Type 0 where
  pub scroll_top : ℕ
  pub scroll_height : ℕ
  pub client_height : ℕ

-- `ratio >= 0.9` where there is something to scroll.
unfoldable pub is_reached : Position → Bool
is_reached p =
    if leb p.scroll_height p.client_height
    then false
    else leb (9 * (p.scroll_height - p.client_height)) (10 * p.scroll_top)

-- `fired.current`, and how often `onReach` has run.
pub record Scrolling : Type 0 where
  pub listening : Bool
  pub fired : Bool
  pub reached : ℕ

unfoldable handler : Position → Scrolling → Scrolling
handler p s =
    if s.fired
    then s
    else if is_reached p
    then record s { fired = true; reached = suc s.reached }
    else s

pub data Event : Type 0 where
  enable : Position → Event
  disable : Event
  scroll : Position → Event

unfoldable pub step : Event → Scrolling → Scrolling
unfolding handler
step (enable p) s = handler p (record s { listening = true; fired = false })
step disable s = record s { listening = false }
step (scroll p) s = if s.listening then handler p s else s

unfoldable pub steps : List Event → Scrolling → Scrolling
unfolding step
steps [] s = s
steps (e ∷ es) s = steps es (step e s)

-- `enabled` of the route: unread, and not set by hand.
unfoldable pub enabled : Option LibraryItem → ℕ → Option ℕ → Bool
enabled none item_id hand_toggled_id = false
enabled (some d) item_id hand_toggled_id = elim d.state [
  | unread ↦ not (elim hand_toggled_id [ none ↦ false | some id ↦ id == item_id ])
  | _ ↦ false
]

-- `onReach` of the route: the update that is sent, if any.
unfoldable on_reach : Option LibraryItem → ℕ → Option (ℕ × UpdateInput)
on_reach none item_id = none
on_reach (some d) item_id = elim d.state [ unread ↦ some (item_id, only_state read) | _ ↦ none ]
