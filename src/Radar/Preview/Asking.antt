-- ===== src/Radar/Preview/Asking.antt =====
-- When web/src/features/radar/components/TopicPreviewPanel.tsx asks for a preview: the texts of the
-- form, debounced, make the key of `useTopicPreviewQuery` of web/src/features/radar/use-radar.tsx.
pub mod Typing
use linktheca.Prelude.{
  ℕ, String, Bool, not, ◌&&◌, List, [], ◌∷◌, leb, ltb, false, ◌==◌, string_eq, if◌then◌else◌,
}
use linktheca.Web.Text.{text_length}
use linktheca.Web.Debounce.{Debounced, Tick, render, elapse, use_debounced_value, tick}
use linktheca.Web.Timers.{Timers}
use linktheca.Radar.Requests.{PreviewTopicInput}
use linktheca.Radar.Preview.{min_preview_description}

-- `DEBOUNCE_MS`
abbrev pub debounce_ms : ℕ
debounce_ms = 500

-- `asked` has the newest first.
pub record Panel : Type 0 where
  pub name : Debounced String
  pub description : Debounced String
  pub asked : List PreviewTopicInput

-- The form is rendered with its texts, or time passes.
pub data Event : Type 0 where
  typed : String → String → Event
  passed : ℕ → Event

abbrev pub same : PreviewTopicInput → PreviewTopicInput → Bool
same a b = (a.name == b.name) && (a.description == b.description)

abbrev is_sooner : Timers String → Timers String → Bool
is_sooner ((t, _) ∷ _) ((u, _) ∷ _) = ltb t u
is_sooner _ _ = false

-- `String.prototype.trim`, and whether the cache has an answer that is fresh enough, are given.
module _ (trim : String → String)
    (is_cached : List PreviewTopicInput → PreviewTopicInput → Bool) where
  -- The query's key, and what is asked for by it.
  abbrev pub input : Panel → PreviewTopicInput
  input s = record { name = trim s.name.debounced; description = trim s.description.debounced }

  abbrev is_enabled : PreviewTopicInput → Bool
  is_enabled i = leb min_preview_description (text_length i.description)

  -- A query is fetched when it is enabled and its key becomes one without a fresh answer.
  abbrev pub fetched : PreviewTopicInput → List PreviewTopicInput → List PreviewTopicInput
  fetched i asked = if is_enabled i && not (is_cached asked i) then i ∷ asked else asked

  unfoldable pub observed : PreviewTopicInput → Panel → Panel
  observed before s =
      if same before (input s) then s else record s { asked = fetched (input s) s.asked }

  unfoldable pub start : String → String → Panel
  start name description =
      let s : Panel = record {
        name = use_debounced_value debounce_ms name;
        description = use_debounced_value debounce_ms description;
        asked = [];
      } in
      record s { asked = fetched (input s) [] }

  -- A timer of one of the texts, and the render that it brings about.
  unfoldable pub name_passed : ℕ → Panel → Panel
  unfolding observed
  name_passed ms s = observed (input s) (record s { name = tick debounce_ms (elapse ms) s.name })

  unfoldable pub description_passed : ℕ → Panel → Panel
  unfolding observed
  description_passed ms s =
      observed (input s) (record s { description = tick debounce_ms (elapse ms) s.description })

  -- The timer that runs out first fires first, and the name's if they run out together.
  unfoldable pub step : Event → Panel → Panel
  unfolding name_passed description_passed
  step (typed n d) s = record s {
    name = tick debounce_ms (render n) s.name;
    description = tick debounce_ms (render d) s.description;
  }
  step (passed ms) s =
      if is_sooner s.description.timers s.name.timers
      then name_passed ms (description_passed ms s)
      else description_passed ms (name_passed ms s)

  unfoldable pub run : List Event → Panel → Panel
  unfolding step
  run [] s = s
  run (e ∷ es) s = run es (step e s)
