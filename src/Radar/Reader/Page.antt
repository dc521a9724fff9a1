-- ===== src/Radar/Reader/Page.antt =====
-- What web/src/features/radar/components/MatchReader.tsx renders.
use linktheca.Prelude.{
  String, Bool, Option, none, some, [], ◌∷◌, append, nullish, truthy, if◌then◌else◌,
}
use linktheca.Web.Http.{Thrown}
use linktheca.Web.Number.{to_string}
use linktheca.Web.View.{View, heading, text, link, button, skeleton}
use linktheca.Web.Query.{Query, is_loading, is_error, is_not_found}
use linktheca.Radar.Types.{MatchView}
use linktheca.Radar.Cards.{Display}

pub data Click : Type 0 where
  save_to_library : Click

abbrev topic_path : MatchView → String
topic_path m = append "/radar/topics/" (to_string m.topic_id)

module _ (d : Display) where
  unfoldable pub body : MatchView → Bool → View Click
  body m saving =
      let f = m.finding in
      link (topic_path m) (append "← Back to " m.topic_name)
      ∷ link (topic_path m) m.topic_name
      ∷ heading (nullish f.title f.url)
      ∷ text (nullish f.feed_title (d.host f.url))
      ∷ text (d.relative_from_now (nullish f.published_at f.discovered_at))
      ∷ text (nullish (truthy f.summary) "No summary captured. Open the original to read.")
      ∷ link f.url "Open original ↗"
      ∷ button (if saving then "Saving…" else "Save to library") saving save_to_library
      ∷ []

  unfoldable pub error_view : Option Thrown → View Click
  error_view failure =
      if is_not_found failure
      then heading "Match not found" ∷ link "/radar" "← Back to radar" ∷ []
      else text "Couldn’t load this match." ∷ []

  -- `none` is a render that reads a property of `undefined`, and throws.
  unfoldable pub view : Query MatchView → Bool → Option (View Click)
  unfolding body error_view
  view q saving =
      if is_loading q
      then some (skeleton "Loading match" ∷ [])
      else if is_error q
      then some (error_view q.failure)
      else elim q.found [ none ↦ none | some m ↦ some (body m saving) ]
