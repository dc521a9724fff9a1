-- ===== src/Radar/Sources/Pages.antt =====
-- What the pages of the sources render: web/src/routes/radar.sources.tsx,
-- web/src/routes/admin.sources.tsx, and their SourceRow.tsx and DeleteFeedConfirm.tsx of
-- web/src/features/radar/components.
pub mod Controls
use linktheca.Prelude.{
  ℕ, String, Bool, true, false, not, ◌&&◌, Option, none, some, List, [], ◌∷◌, ◌++◌, append, length,
  nullish, ◌==◌, nat_eq, if◌then◌else◌,
}
use linktheca.Web.Number.{to_string}
use linktheca.Web.View.{View, heading, text, link, button, checkbox}
use linktheca.Web.Query.{Query, is_success, has_code}
use linktheca.Radar.Types.{FeedListItem}
use linktheca.Radar.Sources.{meta, mine, catalog, own_count, subtitle}
use linktheca.Radar.Cards.{Display, radar_disabled}

pub data Click : Type 0 where
  add cancel confirm : Click
  toggle : ℕ → Bool → Click
  edit delete : FeedListItem → Click

-- `parts.join(" · ")`
abbrev pub join : List String → String
join [] = ""
join (s ∷ []) = s
join (s ∷ t ∷ ts) = append s (append " · " (join (t ∷ ts)))

module _ (d : Display) where
  -- The checkbox is absent on the administrator's page, and the buttons where the feed is another's.
  unfoldable pub source_row : Bool → Bool → FeedListItem → View Click
  source_row can_manage can_toggle feed =
      (if can_toggle
        then checkbox (append "feed-" (to_string feed.id)) feed.subscribed
            (toggle feed.id (not feed.subscribed))
          ∷ []
        else [])
      ++ (text (nullish feed.title (d.host feed.url))
          ∷ text (join (meta d.host d.relative_from_now feed))
          ∷ (if can_manage
              then button "Edit" false (edit feed) ∷ button "Delete" false (delete feed) ∷ []
              else []))

  abbrev pub rows : Bool → Bool → List FeedListItem → View Click
  rows can_manage can_toggle [] = []
  rows can_manage can_toggle (f ∷ fs) =
      source_row can_manage can_toggle f ++ rows can_manage can_toggle fs

  -- `SectionHeader`, and the rows or the words for none
  abbrev pub section : String → String → String → Bool → List FeedListItem → View Click
  section label count words can_manage [] = text label ∷ text count ∷ text words ∷ []
  section label count words can_manage (f ∷ fs) =
      text label ∷ text count ∷ rows can_manage true (f ∷ fs)

  -- DeleteFeedConfirm.tsx
  abbrev consequence : FeedListItem → String
  consequence feed = append (to_string feed.finding_count) (
      if feed.is_own
      then " findings and their matches will be removed."
      else " findings and their matches will be removed for all users.")

  unfoldable pub delete_confirm : Option FeedListItem → Bool → View Click
  delete_confirm none pending = []
  delete_confirm (some feed) pending =
      heading (append "Delete “" (append (nullish feed.title (d.host feed.url)) "”?"))
      ∷ text (append (consequence feed) " This cannot be undone.")
      ∷ button "Cancel" pending cancel
      ∷ button (if pending then "Deleting…" else "Delete") pending confirm
      ∷ []

  -- `SourcesRoute`
  unfoldable pub sources :
      Query (List FeedListItem) → Option ℕ → Option FeedListItem → Bool → View Click
  unfolding source_row delete_confirm
  sources feeds quota deleting pending =
      if has_code "radar_disabled" feeds.failure
      then radar_disabled
      else let items = nullish feeds.found [] in
        heading "Sources"
        ∷ text (subtitle items)
        ∷ link "/radar" "← Back to inbox"
        ∷ button "Add source" false add
        ∷ (section "My sources" (own_count items quota)
              "Add your own RSS or Atom feed — only you will see it." true (mine items)
            ++ (section "Catalog" (append (to_string (length (catalog items))) " feeds")
                  "No shared sources yet. Ask the instance admin to add feeds." false
                  (catalog items)
                ++ delete_confirm deleting pending))

  abbrev admin_subtitle : List FeedListItem → String
  admin_subtitle [] = "Feeds every account can subscribe to"
  admin_subtitle (f ∷ fs) =
      append (to_string (length (f ∷ fs))) " feeds · every account can subscribe to them"

  -- `AdminSourcesRoute`
  unfoldable pub admin_sources : Query (List FeedListItem) → Option FeedListItem → Bool → View Click
  unfolding source_row delete_confirm
  admin_sources feeds deleting pending =
      if has_code "radar_disabled" feeds.failure
      then radar_disabled
      else let items = nullish feeds.found [] in
        heading "Global sources"
        ∷ text (admin_subtitle items)
        ∷ button "Add feed" false add
        ∷ ((if is_success feeds && (length items == 0)
              then text "Add the first shared feed to start watching." ∷ []
              else [])
            ++ (rows true false items ++ delete_confirm deleting pending))
