-- ===== src/Library/Cards.antt =====
-- The card of an article with its menu, the buttons under an article, its head and its picture:
-- LibraryCard.tsx, LibraryCardMenu.tsx, ReaderActions.tsx, DeleteConfirm.tsx, ReaderHeader.tsx and
-- ReaderHero.tsx of web/src/features/library/components.
use linktheca.Prelude.{
  String, Bool, true, false, Option, none, some, [], ◌∷◌, ◌++◌, append, nullish, nullish_or, truthy,
  if◌then◌else◌,
}
use linktheca.Web.Date.{Date}
use linktheca.Web.Number.{to_string}
use linktheca.Web.View.{View, image, heading, text, link, button, text_of}
use linktheca.Library.Types.{LibraryItem, LibraryItemDetail}
use linktheca.Library.Actions.{is_read, is_archived}
use linktheca.Library.Labels.{reading_time_label}

pub data Click : Type 0 where
  toggle_read toggle_favorite toggle_archive request_delete confirm_delete cancel : Click

-- What the cards take from elsewhere: the host of a URL, how long ago a date is, and the encoding of a
-- file's name in a path.
pub record Display : Type 0 where
  pub host : String → String
  pub relative_from_now : Date → String
  pub encode : String → String

-- image.ts
unfoldable pub preview_image_url : Display → String → String
preview_image_url d filename = append "/media/images/" (d.encode filename)

unfoldable pub favicon_url : Display → String → String
favicon_url d filename = append "/media/favicons/" (d.encode filename)

-- DeleteConfirm.tsx
unfoldable pub delete_confirm : Bool → Bool → View Click
delete_confirm false pending = []
delete_confirm true pending =
    heading "Delete this article?"
    ∷ text "It will be removed from your library. The original page stays online."
    ∷ button "Cancel" pending cancel
    ∷ button (if pending then "Deleting…" else "Delete") pending confirm_delete
    ∷ []

abbrev read_label : LibraryItem → String
read_label item = if is_read item then "Mark as unread" else "Mark as read"

abbrev archive_label : LibraryItem → String
archive_label item = if is_archived item then "Unarchive" else "Archive"

-- LibraryCardMenu.tsx, with its menu open
unfoldable card_menu : LibraryItem → Bool → Bool → View Click
unfolding delete_confirm
card_menu item confirm_open pending =
    button (read_label item) false toggle_read
    ∷ button (if item.is_favorite then "Unfavorite" else "Favorite") false toggle_favorite
    ∷ button (archive_label item) false toggle_archive
    ∷ button "Delete" false request_delete
    ∷ delete_confirm confirm_open pending

-- ReaderActions.tsx
unfoldable pub reader_actions : LibraryItem → Bool → Bool → View Click
unfolding delete_confirm
reader_actions item confirm_open pending =
    button (read_label item) false toggle_read
    ∷ button (if item.is_favorite then "Favorited" else "Favorite") false toggle_favorite
    ∷ button (archive_label item) false toggle_archive
    ∷ link item.url "Open original"
    ∷ button "Delete" false request_delete
    ∷ delete_confirm confirm_open pending

module _ (d : Display) where
  -- A picture, unless there is none or its loading failed.
  abbrev image_of : Option String → Bool → Option String
  image_of filename failed =
      if failed
      then none
      else elim (truthy filename) [ none ↦ none | some f ↦ some (preview_image_url d f) ]

  abbrev picture : Option String → View Click
  picture none = []
  picture (some src) = image src ∷ []

  -- LibraryCard.tsx
  unfoldable pub library_card : LibraryItem → Bool → Bool → Bool → View Click
  unfolding card_menu
  library_card item image_failed confirm_open pending =
      let href = append "/library/" (to_string item.id) in
      picture (image_of item.image image_failed)
      ++ (text (if is_read item then "✓ read" else "✦ saved")
          ∷ ((if item.is_favorite then text "favorite" ∷ [] else [])
              ++ (text (reading_time_label item.reading_time_seconds)
                  ∷ text (d.host item.url)
                  ∷ text (d.relative_from_now item.saved_at)
                  ∷ (card_menu item confirm_open pending
                      ++ (link href (nullish item.title item.url)
                          ∷ text_of (truthy item.excerpt))))))

  -- ReaderHeader.tsx
  abbrev pub byline : Option String → View Click
  byline none = []
  byline (some name) = text (append "by " name) ∷ []

  abbrev pub favicon : Option String → View Click
  favicon none = []
  favicon (some f) = image (favicon_url d f) ∷ []

  unfoldable pub reader_header : LibraryItemDetail → View Click
  reader_header detail =
      heading (nullish detail.content.title (nullish detail.title detail.url))
      ∷ (byline (truthy detail.content.byline)
          ++ (favicon (truthy detail.content.favicon)
              ++ (text (d.host detail.url)
                  ∷ text (d.relative_from_now detail.saved_at)
                  ∷ text (
                      reading_time_label (
                        nullish_or detail.content.reading_time_seconds detail.reading_time_seconds))
                  ∷ [])))

  -- ReaderHero.tsx
  unfoldable pub reader_hero : Option String → Bool → View Click
  reader_hero filename failed = picture (image_of filename failed)
