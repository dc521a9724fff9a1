-- ===== src/Radar/Preview/Markup.antt =====
-- What web/src/features/radar/components/TopicPreviewPanel.tsx renders.
use linktheca.Prelude.{
  ℕ, String, Bool, true, false, not, ◌&&◌, Option, none, some, List, [], ◌∷◌, ◌++◌, append, nullish,
  ltb, if◌then◌else◌,
}
use linktheca.Web.Http.{Thrown}
use linktheca.Web.Json.{Decimal}
use linktheca.Web.Number.{to_string}
use linktheca.Web.View.{View, heading, text, skeletons}
use linktheca.Radar.Types.{TopicPreview}
use linktheca.Radar.Preview.{
  Line, threshold_rule, preview_row, Panel, too_short_hint, nothing_scores, failed, list, panel,
  above_count, min_preview_description,
}

abbrev has_items : Option TopicPreview → Bool
has_items none = false
has_items (some p) = elim p.items [ [] ↦ false | m ∷ ms ↦ true ]

abbrev pub count : (Decimal → Decimal → Bool) → Option TopicPreview → String
count lt none = "0 above cutoff"
count lt (some p) = append (to_string (above_count lt p)) " above cutoff"

-- How a number is written with two digits, and the host of a URL, are given.
module _ {E : Type 0} (to_fixed : Decimal → String) (host : String → String) where
  -- `ThresholdRule` and `PreviewRow`
  abbrev pub line : Line → View E
  line (threshold_rule t) = text (append "threshold " (to_fixed t)) ∷ []
  line (preview_row m muted) =
      text (to_fixed m.similarity)
      ∷ text (nullish m.finding.title (host m.finding.url))
      ∷ text (nullish m.finding.feed_title (host m.finding.url))
      ∷ []

  abbrev pub lines : List Line → View E
  lines [] = []
  lines (l ∷ ls) = line l ++ lines ls

  unfoldable pub body : Panel → View E
  body too_short_hint = text "Write a sentence or two and Radar will show what it would catch." ∷ []
  body (failed m) = text m ∷ []
  body Panel.skeleton = skeletons 3
  body nothing_scores = text "Nothing in your subscribed feeds scores against this yet." ∷ []
  body (list ls) = lines ls

  module _ (lt : Decimal → Decimal → Bool) where
    -- By the trimmed description's length and the query's state.
    unfoldable pub view : ℕ → Bool → Option Thrown → Option TopicPreview → View E
    unfolding body
    view description_length is_fetching error preview =
        let too_short = ltb description_length min_preview_description in
        heading "Would match"
        ∷ ((if not too_short && is_fetching then text "scoring…" ∷ [] else [])
            ++ ((if not too_short && (not is_fetching && has_items preview)
                  then text (count lt preview) ∷ []
                  else [])
                ++ body (panel lt description_length error preview)))
