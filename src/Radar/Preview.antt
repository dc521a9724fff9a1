-- ===== src/Radar/Preview.antt =====
-- web/src/features/radar/components/TopicPreviewPanel.tsx: what a new topic would match, with a rule
-- where the cutoff falls, and the guards of web/src/features/radar/use-radar.tsx.
pub mod Cutoff
pub mod Markup
pub mod Asking
use linktheca.Prelude.{
  ℕ, String, Bool, true, false, ◌&&◌, not, Option, none, some, List, [], ◌∷◌, filter, leb, ltb,
  length, ◌==◌, string_eq, if◌then◌else◌,
}
use linktheca.Web.Json.{Decimal}
use linktheca.Web.Http.{Thrown, api}
use linktheca.Radar.Types.{PreviewMatch, TopicPreview}

abbrev pub min_preview_description : ℕ
min_preview_description = 10

pub data Line : Type 0 where
  threshold_rule : Decimal → Line
  preview_row : PreviewMatch → Bool → Line

-- `a < b` on numbers. A number from JSON is not NaN, so `a >= b` is its negation.
module _ (lt : Decimal → Decimal → Bool) where
  abbrev ge : Decimal → Decimal → Bool
  ge a b = not (lt a b)

  unfoldable pub above_count : TopicPreview → ℕ
  above_count preview = length (filter (λ i. ge i.similarity preview.threshold) preview.items)

  abbrev first_below : PreviewMatch → Option PreviewMatch → Decimal → Bool
  first_below item none threshold = lt item.similarity threshold
  first_below item (some previous) threshold =
      lt item.similarity threshold && ge previous.similarity threshold

  -- `PreviewRowWithCutoff`
  unfoldable pub row_with_cutoff :
      PreviewMatch → Option PreviewMatch → Decimal → List Line → List Line
  row_with_cutoff item previous threshold rest =
      let row = preview_row item (lt item.similarity threshold) ∷ rest in
      if first_below item previous threshold then threshold_rule threshold ∷ row else row

  abbrev pub rows : Option PreviewMatch → Decimal → List PreviewMatch → List Line
  rows previous threshold [] = []
  rows previous threshold (item ∷ items) =
      row_with_cutoff item previous threshold (rows (some item) threshold items)

  unfoldable pub render : TopicPreview → List Line
  unfolding row_with_cutoff
  render preview = rows none preview.threshold preview.items

unfoldable pub error_message : Thrown → String
error_message (api e) =
    if e.code == "embedder_unavailable"
    then "Embedder is offline — no preview right now."
    else "Could not score this description."
error_message _ = "Could not score this description."

pub data Panel : Type 0 where
  too_short_hint skeleton nothing_scores : Panel
  failed : String → Panel
  list : List Line → Panel

-- The body of the panel, by the trimmed description's length and the query's state.
unfoldable pub panel : (Decimal → Decimal → Bool) → ℕ → Option Thrown → Option TopicPreview → Panel
panel lt description_length error preview =
    if ltb description_length min_preview_description then too_short_hint else elim error [
      | some e ↦ failed (error_message e)
      | none ↦ elim preview [
        | none ↦ skeleton
        | some p ↦ elim p.items [ [] ↦ nothing_scores | x ∷ xs ↦ list (render lt p) ]
      ]
    ]
