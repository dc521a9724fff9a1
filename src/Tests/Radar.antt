-- ===== src/Tests/Radar.antt =====
-- The radar's inbox, preview, dialogs and sources.
use linktheca.Prelude.{
  ℕ, ◌≡◌, ◌↔◌, refl, Bool, true, false, not, ◌&&◌, none, some, [], ◌∷◌, ◌++◌, map, arith, length,
  filter, any, ltb, ◌==◌, string_eq, nat_eq,
}
use linktheca.Web.Json.{Decimal}
use linktheca.Web.Number.{digits_value}
use linktheca.Web.SearchParams
use linktheca.Web.SearchParams.{SearchParams}
use linktheca.Radar.Types.{InboxState, InboxFilters, MatchState, MatchView, PreviewMatch}
use linktheca.Radar.Mutations.{patch_topic}
use linktheca.Radar.Inbox.{parse_filters, next_search, visible_topics}
use linktheca.Radar.Inbox.Chips.{inbox_parse_filters-next_search, has_news, visible_topics_lem}
use linktheca.Radar.Preview.{preview_row, render, above_count}
use linktheca.Radar.Preview.Cutoff.{ruled, render_lem}
use linktheca.Radar.Dialogs.{TopicValues, topic_patch, topic_update}
use linktheca.Radar.Dialogs.Edits.{with_values, topic_update_lem}
use linktheca.Tests.Fixtures.{topic_4, finding, decimal}

abbrev address : SearchParams
address = ("topic", "7") ∷ ("tab", "x") ∷ []

abbrev chosen : InboxFilters
chosen = record { state = InboxState.all; topic_id = some 4 }

inbox_parse_filters-next_search_example :
    (parse_filters digits_value (next_search address chosen) ≡ chosen)
    × (SearchParams.get (next_search address chosen) "tab" ≡ SearchParams.get address "tab")
inbox_parse_filters-next_search_example =
    inbox_parse_filters-next_search digits_value (λ s n e l. e) address chosen "tab"
      (omega arith, omega arith) refl refl

visible_topics_lem_example :
    (any (λ t. t.id == 4) (visible_topics (topic_4 ∷ []) (some 4))
      ≡ any (λ t. t.id == 4) (topic_4 ∷ []))
    × (any
          (λ t. not t.is_active && not (ltb 0 t.stats.new_count))
          (visible_topics (topic_4 ∷ []) none)
        ≡ false)
    × (filter has_news (visible_topics (topic_4 ∷ []) (some 4)) ≡ filter has_news (topic_4 ∷ []))
    × (filter has_news (visible_topics (topic_4 ∷ []) none) ≡ filter has_news (topic_4 ∷ []))
visible_topics_lem_example = visible_topics_lem (topic_4 ∷ []) 4

-- Tenths are compared by their digits.
abbrev lt : Decimal → Decimal → Bool
lt a b = ltb a.digits b.digits

abbrev scored : ℕ → PreviewMatch
scored n = record { similarity = decimal n 1; finding = finding }

render_lem_example :
    (render lt
        (record { items = scored 8 ∷ scored 6 ∷ [] ++ scored 3 ∷ []; threshold = decimal 5 1 })
      ≡ map (λ i. preview_row i false) (scored 8 ∷ scored 6 ∷ [])
        ++ ruled lt (decimal 5 1) (map (λ i. preview_row i true) (scored 3 ∷ [])))
    × (above_count lt
          (record { items = scored 8 ∷ scored 6 ∷ [] ++ scored 3 ∷ []; threshold = decimal 5 1 })
        ≡ length (scored 8 ∷ scored 6 ∷ []))
render_lem_example =
    render_lem lt (decimal 5 1) (scored 8 ∷ scored 6 ∷ []) (scored 3 ∷ []) (refl, (refl, tt))
      (refl, tt)

abbrev values : TopicValues
values = record { name = "Provers"; description = topic_4.description }

topic_update_lem_example :
    (patch_topic topic_4 (topic_patch values topic_4) ≡ with_values values topic_4)
    × ((topic_update values topic_4 ≡ none) ↔ (with_values values topic_4 ≡ topic_4))
topic_update_lem_example = topic_update_lem values topic_4

abbrev found : MatchView
found = record {
  id = 9;
  topic_id = 4;
  topic_name = "Proofs";
  similarity = decimal 7 1;
  state = MatchState.new;
  matched_at = finding.discovered_at;
  finding = finding;
}
