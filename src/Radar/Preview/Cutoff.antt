-- ===== src/Radar/Preview/Cutoff.antt =====
-- Where the rule of the preview stands (web/src/features/radar/components/TopicPreviewPanel.tsx).
use linktheca.Prelude.{
  suc, ◌≡◌, refl, ap, Bool, true, false, not, Option, none, some, List, [], ◌∷◌, ◌++◌, map, filter,
  length, All,
}
use linktheca.Web.Json.{Decimal}
use linktheca.Radar.Types.{PreviewMatch, TopicPreview}
use linktheca.Radar.Preview.{
  Line, threshold_rule, preview_row, row_with_cutoff, rows, render, above_count,
}

module _ (lt : Decimal → Decimal → Bool) (threshold : Decimal) where
  abbrev Above : List PreviewMatch → Type 0
  Above items = All (λ i. lt i.similarity threshold ≡ false) items

  abbrev pub Below : List PreviewMatch → Type 0
  Below items = All (λ i. lt i.similarity threshold ≡ true) items

  abbrev pub ruled : List Line → List Line
  ruled [] = []
  ruled (l ∷ ls) = threshold_rule threshold ∷ l ∷ ls

  -- Whether the last item shown, if any, is not below the cutoff.
  abbrev IsOpen : Option PreviewMatch → Type 0
  IsOpen none = Unit
  IsOpen (some p) = lt p.similarity threshold ≡ false

  rows-Below :
      (items : List PreviewMatch) (p : PreviewMatch)
      → lt p.similarity threshold ≡ true
      → Below items
      → rows lt (some p) threshold items ≡ map (λ i. preview_row i true) items
  unfolding row_with_cutoff
  rows-Below [] p h b = refl
  rows-Below (i ∷ items) p h (b, bs) =
      rw (b, h) (ap (λ ls. preview_row i true ∷ ls) (rows-Below items i b bs))

  rows_lem :
      (above below : List PreviewMatch) (p : Option PreviewMatch)
      → IsOpen p
      → Above above
      → Below below
      → rows lt p threshold (above ++ below)
        ≡ map (λ i. preview_row i false) above ++ ruled (map (λ i. preview_row i true) below)
  unfolding row_with_cutoff
  rows_lem [] [] p o a b = refl
  rows_lem [] (i ∷ items) none o a (b, bs) =
      rw b (ap (λ ls. threshold_rule threshold ∷ preview_row i true ∷ ls) (rows-Below items i b bs))
  rows_lem [] (i ∷ items) (some p) o a (b, bs) =
      rw (b, o)
        (ap (λ ls. threshold_rule threshold ∷ preview_row i true ∷ ls) (rows-Below items i b bs))
  rows_lem (i ∷ items) below none o (a, ha) b =
      rw a (ap (λ ls. preview_row i false ∷ ls) (rows_lem items below (some i) a ha b))
  rows_lem (i ∷ items) below (some p) o (a, ha) b =
      rw a (ap (λ ls. preview_row i false ∷ ls) (rows_lem items below (some i) a ha b))

  none_counted :
      (below : List PreviewMatch)
      → Below below
      → length (filter (λ i. not (lt i.similarity threshold)) below) ≡ 0
  none_counted [] b = refl
  none_counted (i ∷ items) (b, bs) = rw b (none_counted items bs)

  counted :
      (above below : List PreviewMatch)
      → Above above
      → Below below
      → length (filter (λ i. not (lt i.similarity threshold)) (above ++ below)) ≡ length above
  counted [] below a b = none_counted below b
  counted (i ∷ items) below (a, ha) b = rw a (ap suc (counted items below ha b))

  -- If matches that reach the cutoff are followed by matches that do not, the preview shows the
  -- first ones plain, then one rule if there are others, then the others muted, and counts the
  -- first ones.
  pub render_lem :
      (above below : List PreviewMatch)
      → Above above
      → Below below
      → (let preview : TopicPreview = record { items = above ++ below; threshold = threshold } in
          (render lt preview
            ≡ map (λ i. preview_row i false) above ++ ruled (map (λ i. preview_row i true) below))
          × (above_count lt preview ≡ length above))
  unfolding render above_count
  render_lem above below a b = (rows_lem above below none tt a b, counted above below a b)
