-- ===== src/Web/Timers.antt =====
-- The browser's `setTimeout`: the milliseconds left and what each timer sets, the soonest first.
use linktheca.Prelude.{ℕ, ◌-◌, List, [], ◌∷◌, leb, if◌then◌else◌}

abbrev pub Timers {ℓ} : Type ℓ → Type ℓ
Timers A = List (ℕ × A)

module _ {ℓ} {A : Type ℓ} where
  -- What the timers set that run out within `d` milliseconds, in their order.
  abbrev pub fired : ℕ → Timers A → List A
  fired d [] = []
  fired d ((t, a) ∷ ts) = let rest = fired d ts in if leb t d then a ∷ rest else rest

  abbrev pub remaining : ℕ → Timers A → Timers A
  remaining d [] = []
  remaining d ((t, a) ∷ ts) =
      let rest = remaining d ts in if leb t d then rest else (t - d, a) ∷ rest

  -- The state after a series of `set` calls.
  abbrev pub last_set : A → List A → A
  last_set a [] = a
  last_set a (b ∷ bs) = last_set b bs
