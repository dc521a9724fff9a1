-- ===== src/Web/Debounce.antt =====
-- web/src/shared/lib/use-debounced-value.ts: a value that follows another one when that has been
-- still for a while.
pub mod Settling
use linktheca.Prelude.{ℕ, Bool, List, [], ◌∷◌, ◌==◌, StrictEquality, if◌then◌else◌}
use linktheca.Web.Timers.{Timers, fired, remaining, last_set}

pub record Debounced {ℓ} (T : Type ℓ) : Type ℓ where
  pub value : T
  pub debounced : T
  pub timers : Timers T

-- The component is rendered with a value, or time passes.
pub data Tick {ℓ} (T : Type ℓ) : Type ℓ where
  render : T → Tick T
  elapse : ℕ → Tick T

module _ {ℓ} {T : Type ℓ} ⦃s : StrictEquality T⦄ (delay_ms : ℕ) where
  -- The first render, and its effect.
  unfoldable pub use_debounced_value : T → Debounced T
  use_debounced_value v = record { value = v; debounced = v; timers = (delay_ms, v) ∷ [] }

  -- The effect runs again if the value is another one: `clearTimeout(id)`, then `setTimeout`.
  unfoldable pub rendered : T → Debounced T → Debounced T
  rendered v d = if v == d.value then d else record d { value = v; timers = (delay_ms, v) ∷ [] }

  unfoldable pub elapsed : ℕ → Debounced T → Debounced T
  elapsed ms d = record d {
    debounced = last_set d.debounced (fired ms d.timers);
    timers = remaining ms d.timers;
  }

  unfoldable pub tick : Tick T → Debounced T → Debounced T
  unfolding rendered elapsed
  tick (render v) d = rendered v d
  tick (elapse ms) d = elapsed ms d

  unfoldable pub ticks : List (Tick T) → Debounced T → Debounced T
  unfolding tick
  ticks [] d = d
  ticks (e ∷ es) d = ticks es (tick e d)
