-- ===== src/Radar/Sources.antt =====
-- The page of the sources: web/src/routes/radar.sources.tsx and
-- web/src/features/radar/components/SourceRow.tsx.
pub mod Sections
pub mod Pages
pub mod Deleting
use linktheca.Prelude.{
  ℕ, ◌+◌, ◌*◌, ◌/◌, String, Bool, not, Option, none, some, List, [], ◌∷◌, filter, length, append,
  truthy, ltb, ◌==◌, nat_eq, if◌then◌else◌,
}
use linktheca.Web.Date.{Date}
use linktheca.Web.Number.{to_string}
use linktheca.Radar.Types.{FeedListItem}

-- `Math.round(a / b)`: halves go up.
abbrev pub round : ℕ → ℕ → ℕ
round a b = (2 * a + b) / (2 * b)

unfoldable pub fmt_interval : ℕ → String
fmt_interval seconds =
    let hours = round seconds 3600 in
    if ltb seconds 3600
    then append "every " (append (to_string (round seconds 60)) "m")
    else if hours == 1
    then "every 1h"
    else append "every " (append (to_string hours) "h")

-- What the row says of the crawler, by the host of the URL and the age of the last visit.
unfoldable pub meta : (String → String) → (Date → String) → FeedListItem → List String
meta host relative_from_now feed =
    host feed.url
    ∷ (if feed.is_active then fmt_interval feed.fetch_interval_seconds else "paused")
    ∷ (elim (truthy feed.last_error) [
      | some e ↦ append "⚠ " e
      | none ↦ elim feed.last_fetched_at [
        | some d ↦ append "fetched " (relative_from_now d)
        | none ↦ "never fetched"
      ]
    ])
    ∷ append (to_string feed.finding_count) " items"
    ∷ []

unfoldable pub mine : List FeedListItem → List FeedListItem
mine items = filter (λ f. f.is_own) items

unfoldable pub catalog : List FeedListItem → List FeedListItem
catalog items = filter (λ f. not f.is_own) items

unfoldable pub subscribed_count : List FeedListItem → ℕ
subscribed_count items = length (filter (λ f. f.subscribed) items)

-- The count behind "My sources"; a quota of 0 counts as none.
unfoldable pub own_count : List FeedListItem → Option ℕ → String
own_count items none = to_string (length (mine items))
own_count items (some quota) =
    if quota == 0
    then to_string (length (mine items))
    else append (to_string (length (mine items))) (append " / " (to_string quota))

-- The line under the page's title.
unfoldable pub subtitle : List FeedListItem → String
subtitle [] = "Feeds this instance watches"
subtitle (f ∷ fs) = append (to_string (length (f ∷ fs))) (
    append " feeds · " (
      append (to_string (subscribed_count (f ∷ fs)))
        " subscribed · changes apply from the next sweep"))
