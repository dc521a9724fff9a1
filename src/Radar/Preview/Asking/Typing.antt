-- ===== src/Radar/Preview/Asking/Typing.antt =====
-- What web/src/features/radar/components/TopicPreviewPanel.tsx asks for while a description is typed.
use linktheca.Prelude.{
  ℕ, ◌≤◌, ◌≡◌, refl, ◌∙◌, sym, ap, String, Bool, true, List, [], ◌∷◌, arith, eq_iff, ◌==◌,
  string_eq, if◌then◌else◌,
}
use linktheca.Web.Debounce.{Debounced, use_debounced_value, rendered, elapsed, tick, ticks}
use linktheca.Web.Debounce.Settling.{
  burst, IsBurst, last_value, run-burst, burst_step, elapsed-value, elapsed-settles, ticks-Waits,
}
use linktheca.Radar.Requests.{PreviewTopicInput}
use linktheca.Radar.Preview.Asking.{
  Panel, Event, typed, passed, debounce_ms, same, fetched, observed, start, name_passed,
  description_passed, step, run,
}

-- The description is typed, with a pause after each change, and the name stays.
abbrev pub typing : String → List (String × ℕ) → List Event
typing name [] = []
typing name ((d, ms) ∷ ps) = typed name d ∷ passed ms ∷ typing name ps

abbrev still : String → Debounced String
still v = record { value = v; debounced = v; timers = [] }

abbrev panel : String → Debounced String → List PreviewTopicInput → Panel
panel n d asked = record { name = still n; description = d; asked = asked }

eq_refl : (s : String) → (s == s) ≡ true
eq_refl s = ground (arith, eq_iff s s)

same_refl : (i : PreviewTopicInput) → same i i ≡ true
same_refl i = rw (eq_refl i.name, eq_refl i.description) refl

module _ (trim : String → String)
    (is_cached : List PreviewTopicInput → PreviewTopicInput → Bool) where
  abbrev asked_of : String → String → PreviewTopicInput
  asked_of n d = record { name = trim n; description = trim d }

  -- What is asked for when the description that counts becomes another one.
  abbrev pub asked_by : String → String → String → List PreviewTopicInput → List PreviewTopicInput
  asked_by n old new asked =
      if same (asked_of n old) (asked_of n new)
      then asked
      else fetched trim is_cached (asked_of n new) asked

  observed-panel :
      (n old : String) (d : Debounced String) (asked : List PreviewTopicInput)
      → observed trim is_cached (asked_of n old) (panel n d asked)
        ≡ panel n d (asked_by n old d.debounced asked)
  unfolding observed
  observed-panel n old d asked = ground arith

  name_passed-panel :
      (n : String) (d : Debounced String) (ms : ℕ) (asked : List PreviewTopicInput)
      → name_passed trim is_cached ms (panel n d asked) ≡ panel n d asked
  unfolding name_passed tick elapsed
  name_passed-panel n d ms asked = rw (same_refl (asked_of n d.debounced)) refl

  description_passed-panel :
      (n : String) (d : Debounced String) (ms : ℕ) (asked : List PreviewTopicInput)
      → description_passed trim is_cached ms (panel n d asked)
        ≡ panel n
            (elapsed debounce_ms ms d)
            (asked_by n d.debounced (elapsed debounce_ms ms d).debounced asked)
  unfolding description_passed tick
  description_passed-panel n d ms asked =
      observed-panel n d.debounced (elapsed debounce_ms ms d) asked

  passed-panel :
      (n : String) (d : Debounced String) (ms : ℕ) (asked : List PreviewTopicInput)
      → step trim is_cached (passed ms) (panel n d asked)
        ≡ panel n
            (elapsed debounce_ms ms d)
            (asked_by n d.debounced (elapsed debounce_ms ms d).debounced asked)
  unfolding step
  passed-panel n d ms asked =
      let e = elapsed debounce_ms ms d in
      let after = asked_by n d.debounced e.debounced asked in
      rw
        (
          name_passed-panel n d ms asked,
          description_passed-panel n d ms asked,
          name_passed-panel n e ms after,
        )
        (ground arith)

  typed-panel :
      (n w : String) (d : Debounced String) (asked : List PreviewTopicInput)
      → step trim is_cached (typed n w) (panel n d asked) ≡ panel n (rendered debounce_ms w d) asked
  unfolding step tick rendered
  typed-panel n w d asked = rw (eq_refl n) refl

  rendered-debounced :
      (w : String) (d : Debounced String) → (rendered debounce_ms w d).debounced ≡ d.debounced
  unfolding rendered
  rendered-debounced w d = ground arith

  asked_by_same :
      (n old new : String) (asked : List PreviewTopicInput)
      → new ≡ old
      → asked_by n old new asked ≡ asked
  asked_by_same n old new asked e = rw (e, same_refl (asked_of n old)) refl

  typing-panel :
      (n : String) (ps : List (String × ℕ)) (d : Debounced String) (asked : List PreviewTopicInput)
      → IsBurst debounce_ms d.value ps
      → run trim is_cached (typing n ps) (panel n d asked)
        ≡ panel n (ticks debounce_ms (burst ps) d) asked
  unfolding run ticks tick
  typing-panel n [] d asked b = refl
  typing-panel n ((w, ms) ∷ ps) d asked b =
      let next = elapsed debounce_ms ms (rendered debounce_ms w d) in
      let later : IsBurst debounce_ms next.value ps = rw (elapsed-value debounce_ms d w ms) b.2 in
      ap (λ s. run trim is_cached (typing n ps) (step trim is_cached (passed ms) s))
        (typed-panel n w d asked)
      ∙ ap (run trim is_cached (typing n ps)) (passed-panel n (rendered debounce_ms w d) ms asked)
      ∙ ap (λ is. run trim is_cached (typing n ps) (panel n next is))
          (asked_by_same n (rendered debounce_ms w d).debounced next.debounced asked
            (burst_step debounce_ms d w ms b.0 b.1 ∙ sym (rendered-debounced w d)))
      ∙ typing-panel n ps next asked later

  elapsed-start :
      (v : String) (ms : ℕ)
      → debounce_ms ≤ ms
      → elapsed debounce_ms ms (use_debounced_value debounce_ms v) ≡ still v
  unfolding elapsed use_debounced_value
  elapsed-start v ms l = ground arith

  name_settles :
      (n : String) (r d : Debounced String) (ms : ℕ) (asked : List PreviewTopicInput)
      → elapsed debounce_ms ms r ≡ still n
      → r.debounced ≡ n
      → name_passed trim is_cached ms (record { name = r; description = d; asked = asked })
        ≡ panel n d asked
  unfolding name_passed tick
  name_settles n r d ms asked e q =
      ap
        (λ (m : Debounced String).
          observed trim is_cached (asked_of r.debounced d.debounced)
            (record { name = m; description = d; asked = asked }))
        e
      ∙ ap (λ m. observed trim is_cached (asked_of m d.debounced) (panel n d asked)) q
      ∙ observed-panel n d.debounced d asked
      ∙ ap (panel n d) (asked_by_same n d.debounced d.debounced asked refl)

  start-panel :
      (n v : String) (ms : ℕ)
      → debounce_ms ≤ ms
      → run trim is_cached (passed ms ∷ []) (start trim is_cached n v)
        ≡ panel n (still v) (start trim is_cached n v).asked
  unfolding run step start use_debounced_value
  start-panel n v ms l =
      let first : Debounced String = use_debounced_value debounce_ms v in
      let asked = (start trim is_cached n v).asked in
      ap (description_passed trim is_cached ms) (
        name_settles n (use_debounced_value debounce_ms n) first ms asked (elapsed-start n ms l)
          refl)
      ∙ description_passed-panel n first ms asked
      ∙ ap (λ (e : Debounced String). panel n e (asked_by n v e.debounced asked))
          (elapsed-start v ms l)
      ∙ ap (panel n (still v)) (asked_by_same n v v asked refl)

  -- What the panel is like after the burst, and after the delay.
  settled-asked :
      (n v : String) (ps : List (String × ℕ)) (ms : ℕ) (asked : List PreviewTopicInput)
      → IsBurst debounce_ms v ps
      → debounce_ms ≤ ms
      → (run trim is_cached
          (passed ms ∷ [])
          (panel n (ticks debounce_ms (burst ps) (still v)) asked)).asked
        ≡ asked_by n v (last_value v ps) asked
  unfolding run
  settled-asked n v ps ms asked b m =
      let d = ticks debounce_ms (burst ps) (still v) in
      let during = run-burst debounce_ms ps (still v) b in
      let waits = ticks-Waits debounce_ms (burst ps) (still v) refl in
      let settles = elapsed-settles debounce_ms ms d.value d.debounced d.timers waits m in
      ap (λ (s : Panel). s.asked) (passed-panel n d ms asked)
      ∙ ap (λ o. asked_by n o (elapsed debounce_ms ms d).debounced asked) during.0
      ∙ ap (λ w. asked_by n v w asked) (settles ∙ during.1)

  -- If a panel of the preview has been shown for the delay of 500 milliseconds, and then the
  -- description is typed in changes that are each followed by a shorter pause, nothing is asked for
  -- meanwhile; after the delay the preview of the last text is asked for, once, if its trimmed text
  -- is another one than at the start and long enough and the cache has no fresh answer, and else
  -- nothing.
  pub typing_asks_once :
      (n v : String) (ps : List (String × ℕ)) (before after : ℕ)
      → debounce_ms ≤ before
      → IsBurst debounce_ms v ps
      → debounce_ms ≤ after
      → let s = run trim is_cached (passed before ∷ []) (start trim is_cached n v) in
        let t = run trim is_cached (typing n ps) s in
        (t.asked ≡ s.asked)
        × ((run trim is_cached (passed after ∷ []) t).asked
            ≡ asked_by n v (last_value v ps) s.asked)
  typing_asks_once n v ps before after l b m =
      rw (start-panel n v before l, typing-panel n ps (still v) (start trim is_cached n v).asked b)
        (refl, settled-asked n v ps after (start trim is_cached n v).asked b m)
