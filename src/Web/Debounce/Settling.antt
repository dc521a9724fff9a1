-- ===== src/Web/Debounce/Settling.antt =====
-- When the debounced value of web/src/shared/lib/use-debounced-value.ts follows.
use linktheca.Prelude.{
  ℕ, ◌≤◌, ◌<◌, ◌≡◌, ◌∙◌, ap, refl, ◌≢◌, List, [], ◌∷◌, arith, ◌==◌, StrictEquality, if_elim,
}
use linktheca.Web.Debounce.{
  Debounced, Tick, render, elapse, use_debounced_value, rendered, elapsed, ticks,
}
use linktheca.Web.Timers.{Timers}

module _ {T : Type 0} where
  -- Nothing is left to do, or one timer for the present value.
  abbrev IsWaiting : ℕ → T → T → Timers T → Type 0
  IsWaiting delay_ms value debounced [] = debounced ≡ value
  IsWaiting delay_ms value debounced ((t, v) ∷ []) = (t ≤ delay_ms) × (v ≡ value)
  IsWaiting delay_ms value debounced ((t, v) ∷ u ∷ ts) = ⊥

  -- The values rendered, each followed by a pause.
  abbrev pub burst : List (T × ℕ) → List (Tick T)
  burst [] = []
  burst ((v, ms) ∷ ps) = render v ∷ elapse ms ∷ burst ps

  -- Each value differs from the one before, and each pause is shorter than the delay.
  abbrev pub IsBurst : ℕ → T → List (T × ℕ) → Type 0
  IsBurst delay_ms v [] = Unit
  IsBurst delay_ms v ((w, ms) ∷ ps) = (w ≢ v) × (ms < delay_ms) × IsBurst delay_ms w ps

  abbrev pub last_value : T → List (T × ℕ) → T
  last_value v [] = v
  last_value v ((w, ms) ∷ ps) = last_value w ps

module _ {T : Type 0} ⦃s : StrictEquality T⦄ (delay_ms : ℕ) where
  abbrev Waits : Debounced T → Type 0
  Waits d = IsWaiting delay_ms d.value d.debounced d.timers

  rendered-Waits : (v : T) (d : Debounced T) → Waits d → Waits (rendered delay_ms v d)
  unfolding rendered
  rendered-Waits v d w = if_elim Waits (v == d.value) (λ e. w) (λ e. (omega arith, refl))

  elapsed-Waits :
      (ms : ℕ) (v b : T) (ts : Timers T)
      → IsWaiting delay_ms v b ts
      → Waits (elapsed delay_ms ms (record { value = v; debounced = b; timers = ts }))
  unfolding elapsed
  elapsed-Waits ms v b [] w = w
  elapsed-Waits ms v b ((t, u) ∷ []) w = ground arith
  elapsed-Waits ms v b (p ∷ q ∷ ts) w = absurd w

  pub ticks-Waits : (es : List (Tick T)) (d : Debounced T) → Waits d → Waits (ticks delay_ms es d)
  unfolding ticks
  ticks-Waits [] d w = w
  ticks-Waits (render v ∷ es) d w = ticks-Waits es (rendered delay_ms v d) (rendered-Waits v d w)
  ticks-Waits (elapse ms ∷ es) d w =
      ticks-Waits es (elapsed delay_ms ms d) (elapsed-Waits ms d.value d.debounced d.timers w)

  pub elapsed-settles :
      (ms : ℕ) (v b : T) (ts : Timers T)
      → IsWaiting delay_ms v b ts
      → delay_ms ≤ ms
      → (elapsed delay_ms ms (record { value = v; debounced = b; timers = ts })).debounced ≡ v
  unfolding elapsed
  elapsed-settles ms v b [] w l = w
  elapsed-settles ms v b ((t, u) ∷ []) w l = ground arith
  elapsed-settles ms v b (p ∷ q ∷ ts) w l = absurd w

  -- After the delay the debounced value is the present one, whatever happened before.
  ticks_settle :
      (v : T) (es : List (Tick T)) (ms : ℕ)
      → delay_ms ≤ ms
      → let d = ticks delay_ms es (use_debounced_value delay_ms v) in
        (elapsed delay_ms ms d).debounced ≡ d.value
  unfolding use_debounced_value
  ticks_settle v es ms l =
      let start = use_debounced_value delay_ms v in
      let d = ticks delay_ms es start in
      elapsed-settles ms d.value d.debounced d.timers (ticks-Waits es start (omega arith, refl)) l

  -- One value and one pause of a burst.
  pub burst_step :
      (d : Debounced T) (w : T) (ms : ℕ)
      → w ≢ d.value
      → ms < delay_ms
      → (elapsed delay_ms ms (rendered delay_ms w d)).debounced ≡ d.debounced
  unfolding elapsed rendered
  burst_step d w ms n l = ground (arith, s.is_equality w d.value)

  pub elapsed-value :
      (d : Debounced T) (w : T) (ms : ℕ) → (elapsed delay_ms ms (rendered delay_ms w d)).value ≡ w
  unfolding elapsed rendered
  elapsed-value d w ms = ground (arith, s.is_equality w d.value)

  pub run-burst :
      (ps : List (T × ℕ)) (d : Debounced T)
      → IsBurst delay_ms d.value ps
      → ((ticks delay_ms (burst ps) d).debounced ≡ d.debounced)
        × ((ticks delay_ms (burst ps) d).value ≡ last_value d.value ps)
  unfolding ticks
  run-burst [] d b = (refl, refl)
  run-burst ((w, ms) ∷ ps) d b =
      let next = elapsed delay_ms ms (rendered delay_ms w d) in
      let there = elapsed-value d w ms in
      let rest = run-burst ps next (rw there b.2) in
      (rest.0 ∙ burst_step d w ms b.0 b.1, rest.1 ∙ ap (λ v. last_value v ps) there)

  -- Whatever happened before, while values come that each differ from the one before and are each
  -- followed by a pause shorter than the delay, the debounced value stays as it was; after the
  -- delay it is the last of them.
  burst_once :
      (v : T) (es : List (Tick T)) (ps : List (T × ℕ)) (ms : ℕ)
      → let d = ticks delay_ms es (use_debounced_value delay_ms v) in
        IsBurst delay_ms d.value ps
        → delay_ms ≤ ms
        → let e = ticks delay_ms (burst ps) d in
          (e.debounced ≡ d.debounced) × ((elapsed delay_ms ms e).debounced ≡ last_value d.value ps)
  unfolding use_debounced_value
  burst_once v es ps ms b l =
      let start = use_debounced_value delay_ms v in
      let d = ticks delay_ms es start in
      let e = ticks delay_ms (burst ps) d in
      let during = run-burst ps d b in
      (
        during.0,
        elapsed-settles ms e.value e.debounced e.timers
              (ticks-Waits (burst ps) d (ticks-Waits es start (omega arith, refl))) l
            ∙ during.1,
      )
