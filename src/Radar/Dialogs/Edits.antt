-- ===== src/Radar/Dialogs/Edits.antt =====
-- What the edit dialogs of the radar change.
use linktheca.Prelude.{
  ◌≡◌, ◌↔◌, refl, ap, String, none, some, arith, eq_iff, nullish, ◌==◌, string_eq, if◌then◌else◌,
}
use linktheca.Radar.Types.{TopicWithStats}
use linktheca.Radar.Mutations.{patch_topic}
use linktheca.Radar.Dialogs.{TopicValues, topic_patch, topic_update}

-- The topic with the name and the description of the form.
abbrev pub with_values : TopicValues → TopicWithStats → TopicWithStats
with_values values t = record t {
  topic = record t.topic { name = values.name; description = values.description };
}

kept : (value old : String) → nullish (if value == old then none else some value) old ≡ value
kept value old = ground (arith, eq_iff value old)

patched :
    (values : TopicValues) (t : TopicWithStats)
    → patch_topic t (topic_patch values t) ≡ with_values values t
unfolding patch_topic topic_patch
patched values t = rw (kept values.name t.name, kept values.description t.description) refl

same_texts :
    (values : TopicValues) (t : TopicWithStats)
    → topic_update values t ≡ none
    → (values.name ≡ t.name) × (values.description ≡ t.description)
unfolding topic_update topic_patch
same_texts values t e = (
  ground (arith, eq_iff values.name t.name),
  ground (arith, eq_iff values.description t.description),
)

untouched :
    (values : TopicValues) (t : TopicWithStats)
    → topic_update values t ≡ none
    → with_values values t ≡ t
untouched values t e = rw (same_texts values t e).0 (rw (same_texts values t e).1 refl)

no_update :
    (values : TopicValues) (t : TopicWithStats)
    → with_values values t ≡ t
    → topic_update values t ≡ none
unfolding topic_update topic_patch
no_update values t e = ground (
  arith,
  eq_iff values.name t.name,
  eq_iff values.description t.description,
  ap (λ (s : TopicWithStats). s.name) e,
  ap (λ (s : TopicWithStats). s.description) e,
)

-- The patch of the topic dialog turns the topic into one with the values of the form, and no update
-- is sent exactly if those are the values that it has.
pub topic_update_lem :
    (values : TopicValues) (t : TopicWithStats)
    → (patch_topic t (topic_patch values t) ≡ with_values values t)
      × ((topic_update values t ≡ none) ↔ (with_values values t ≡ t))
topic_update_lem values t = (patched values t, (untouched values t, no_update values t))
