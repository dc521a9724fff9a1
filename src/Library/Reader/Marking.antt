-- ===== src/Library/Reader/Marking.antt =====
-- Runs of web/src/features/library/components/useMarkReadOnScroll.tsx.
use linktheca.Prelude.{
  ℕ, suc, ◌+◌, ◌≤◌, ◌≡◌, refl, ap, Bool, true, false, ◌||◌, List, [], ◌∷◌, arith, any, map,
  if◌then◌else◌,
}
use linktheca.Library.Reader.{
  Position, is_reached, Scrolling, Event, enable, disable, scroll, step, steps,
}

abbrev at : Bool → Bool → ℕ → Scrolling
at listening fired reached = record { listening = listening; fired = fired; reached = reached }

steps_fired :
    (ps : List Position) (l : Bool) (n : ℕ) → steps (map scroll ps) (at l true n) ≡ at l true n
unfolding steps
steps_fired [] l n = refl
steps_fired (p ∷ ps) true n = steps_fired ps true n
steps_fired (p ∷ ps) false n = steps_fired ps false n

after_one :
    (b : Bool) (ps : List Position) (n : ℕ)
    → (steps (map scroll ps) (if b then at true true (suc n) else at true false n)).reached
      ≡ (if b || any is_reached ps then suc n else n)
unfolding steps
after_one true ps n = ap (λ (t : Scrolling). t.reached) (steps_fired ps true (suc n))
after_one false [] n = refl
after_one false (p ∷ ps) n = after_one (is_reached p) ps n

-- From the moment the marking is switched on, however the page is scrolled, onReach runs once if a
-- position at that moment or later is near enough to the end, and else not at all.
pub steps_once :
    (p : Position) (ps : List Position) (s : Scrolling)
    → (steps (enable p ∷ map scroll ps) s).reached
      ≡ (if any is_reached (p ∷ ps) then suc s.reached else s.reached)
unfolding steps
steps_once p ps s = after_one (is_reached p) ps s.reached

abbrev count : Event → ℕ
count (enable p) = 1
count disable = 0
count (scroll p) = 0

abbrev enablings : List Event → ℕ
enablings [] = 0
enablings (e ∷ es) = count e + enablings es

-- Calls still allowed without a new enabling.
abbrev open_calls : Scrolling → ℕ
open_calls s = if s.fired then 0 else 1

step_bound :
    (e : Event) (s : Scrolling)
    → (step e s).reached + open_calls (step e s) ≤ s.reached + open_calls s + count e
unfolding step
step_bound (enable p) s = ground arith
step_bound disable s = ground arith
step_bound (scroll p) s = ground arith

-- In any order of events, onReach runs at most once for each time that the marking is switched on,
-- and once more if it had not run at the start.
steps_bound :
    (es : List Event) (s : Scrolling)
    → (steps es s).reached ≤ s.reached + open_calls s + enablings es
unfolding steps
steps_bound [] s = omega arith
steps_bound (e ∷ es) s = omega (arith, steps_bound es (step e s), step_bound e s)
