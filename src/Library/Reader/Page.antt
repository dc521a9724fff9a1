-- ===== src/Library/Reader/Page.antt =====
-- What web/src/routes/library.$id.tsx renders, and the bar of
-- web/src/features/library/components/ReadingProgress.tsx.
use linktheca.Prelude.{
  ℕ, ◌-◌, Bool, Option, none, some, [], ◌∷◌, ◌++◌, nullish, nullish_or, truthy, ltb, map,
  if◌then◌else◌,
}
use linktheca.Web.Http.{Thrown}
use linktheca.Web.View.{View, map_part, heading, text, link, skeleton}
use linktheca.Web.Query.{Query, is_loading, is_error, is_not_found}
use linktheca.Web.Query.Listing.{error_panel}
use linktheca.Library.Types.{LibraryItemDetail, ArticleContent}
use linktheca.Library.Cards.{Click, Display, reader_header, reader_hero, reader_actions}

-- `scrolled / max`, at most 1, as the two numbers; a page that fits its window is at 0.
unfoldable pub progress : ℕ → ℕ → ℕ → ℕ × ℕ
progress scroll_top scroll_height client_height =
    if ltb client_height scroll_height
    then (let max = scroll_height - client_height in
        (if ltb max scroll_top then max else scroll_top, max))
    else (0, 1)

-- The buttons of the page: those of the article, and the one of the error.
pub data PageClick : Type 0 where
  on_item : Click → PageClick
  retry : PageClick

-- The article's text: why it is missing, its HTML, its plain text, or the words for none.
unfoldable pub article : ArticleContent → View PageClick
article c = elim (truthy c.fetch_error) [
  | some e ↦
      text "Extraction failed"
      ∷ text "We couldn't extract content from this page. Open the original to read it."
      ∷ text e
      ∷ []
  | none ↦ elim (truthy c.html) [
    | some html ↦ text html ∷ []
    | none ↦ text (nullish (truthy c.text) "No readable content for this URL.") ∷ []
  ]
]

module _ (d : Display) where
  unfoldable pub body : LibraryItemDetail → Bool → Bool → Bool → View PageClick
  unfolding article
  body detail image_failed confirm_open pending =
      link "/library" "← Back to library"
      ∷ (map (map_part on_item) (reader_header d detail)
          ++ (map (map_part on_item)
                (reader_hero d (nullish_or detail.content.image detail.image) image_failed)
              ++ (article detail.content
                  ++ map (map_part on_item) (reader_actions detail.item confirm_open pending))))

  unfoldable pub error_view : Option Thrown → View PageClick
  error_view failure =
      if is_not_found failure
      then heading "Article not found" ∷ link "/library" "← Back to library" ∷ []
      else error_panel "Couldn't load this article" retry

  -- With the test `Number.isNaN(itemId)`. `none` is a render that reads a property of `undefined`, and
  -- throws.
  unfoldable pub view :
      Bool → Query LibraryItemDetail → Bool → Bool → Bool → Option (View PageClick)
  unfolding body error_view
  view invalid q image_failed confirm_open pending =
      if invalid
      then some (text "Invalid article id." ∷ [])
      else if is_loading q
      then some (skeleton "Loading article" ∷ [])
      else if is_error q
      then some (error_view q.failure)
      else elim q.found [
        | none ↦ none
        | some detail ↦ some (body detail image_failed confirm_open pending)
      ]
