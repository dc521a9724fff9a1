-- ===== src/Radar/Sources/Pages/Controls.antt =====
-- The controls of web/src/routes/radar.sources.tsx and web/src/routes/admin.sources.tsx.
use linktheca.Prelude.{
  ℕ, String, ◌≡◌, refl, ◌∙◌, Bool, true, false, not, ◌&&◌, ◌||◌, Option, none, List, [], ◌∷◌, arith,
  any, nullish, ◌==◌, nat_eq,
}
use linktheca.Web.View.{offers}
use linktheca.Web.View.Offers.{offers-append}
use linktheca.Web.Query.{Query, has_code}
use linktheca.Radar.Types.{FeedListItem}
use linktheca.Radar.Cards.{Display}
use linktheca.Radar.Sources.{mine, catalog}
use linktheca.Radar.Sources.Pages.{
  Click, add, cancel, confirm, toggle, edit, delete, source_row, rows, section, sources,
  admin_sources,
}

-- What a control does with the feed: opens the form for it, asks whether to delete it, or sets its
-- subscription to a value.
abbrev pub edits : ℕ → Click → Bool
edits id (edit f) = f.id == id
edits id (delete f) = false
edits id (toggle i b) = false
edits id add = false
edits id cancel = false
edits id confirm = false

abbrev pub deletes : ℕ → Click → Bool
deletes id (delete f) = f.id == id
deletes id (edit f) = false
deletes id (toggle i b) = false
deletes id add = false
deletes id cancel = false
deletes id confirm = false

abbrev pub subscribes : ℕ → Click → Bool
subscribes id (toggle i b) = (i == id) && b
subscribes id (edit f) = false
subscribes id (delete f) = false
subscribes id add = false
subscribes id cancel = false
subscribes id confirm = false

abbrev pub unsubscribes : ℕ → Click → Bool
unsubscribes id (toggle i b) = (i == id) && not b
unsubscribes id (edit f) = false
unsubscribes id (delete f) = false
unsubscribes id add = false
unsubscribes id cancel = false
unsubscribes id confirm = false

abbrev pub has_id : ℕ → List FeedListItem → Bool
has_id id fs = any (λ f. f.id == id) fs

abbrev pub has_own_id : ℕ → List FeedListItem → Bool
has_own_id id fs = any (λ f. f.is_own && (f.id == id)) fs

abbrev pub has_new_id : ℕ → List FeedListItem → Bool
has_new_id id fs = any (λ f. (f.id == id) && not f.subscribed) fs

abbrev pub has_subscribed_id : ℕ → List FeedListItem → Bool
has_subscribed_id id fs = any (λ f. (f.id == id) && f.subscribed) fs

module _ (d : Display) (id : ℕ) where
  row-edits :
      (cm ct : Bool) (f : FeedListItem)
      → offers (edits id) (source_row d cm ct f) ≡ cm && (f.id == id)
  unfolding source_row
  row-edits cm ct f = ground arith

  rows-edits :
      (cm ct : Bool) (fs : List FeedListItem)
      → offers (edits id) (rows d cm ct fs) ≡ cm && has_id id fs
  rows-edits cm ct [] = ground arith
  rows-edits cm ct (f ∷ fs) =
      offers-append (edits id) (source_row d cm ct f) (rows d cm ct fs)
      ∙ ground (arith, row-edits cm ct f, rows-edits cm ct fs)

  section-edits :
      (label count words : String) (cm : Bool) (fs : List FeedListItem)
      → offers (edits id) (section d label count words cm fs) ≡ cm && has_id id fs
  section-edits label count words cm [] = ground arith
  section-edits label count words cm (f ∷ fs) = rows-edits cm true (f ∷ fs)

  row-deletes :
      (cm ct : Bool) (f : FeedListItem)
      → offers (deletes id) (source_row d cm ct f) ≡ cm && (f.id == id)
  unfolding source_row
  row-deletes cm ct f = ground arith

  rows-deletes :
      (cm ct : Bool) (fs : List FeedListItem)
      → offers (deletes id) (rows d cm ct fs) ≡ cm && has_id id fs
  rows-deletes cm ct [] = ground arith
  rows-deletes cm ct (f ∷ fs) =
      offers-append (deletes id) (source_row d cm ct f) (rows d cm ct fs)
      ∙ ground (arith, row-deletes cm ct f, rows-deletes cm ct fs)

  section-deletes :
      (label count words : String) (cm : Bool) (fs : List FeedListItem)
      → offers (deletes id) (section d label count words cm fs) ≡ cm && has_id id fs
  section-deletes label count words cm [] = ground arith
  section-deletes label count words cm (f ∷ fs) = rows-deletes cm true (f ∷ fs)

  row-subscribes :
      (cm ct : Bool) (f : FeedListItem)
      → offers (subscribes id) (source_row d cm ct f) ≡ ct && ((f.id == id) && not f.subscribed)
  unfolding source_row
  row-subscribes cm ct f = ground arith

  rows-subscribes :
      (cm ct : Bool) (fs : List FeedListItem)
      → offers (subscribes id) (rows d cm ct fs) ≡ ct && has_new_id id fs
  rows-subscribes cm ct [] = ground arith
  rows-subscribes cm ct (f ∷ fs) =
      offers-append (subscribes id) (source_row d cm ct f) (rows d cm ct fs)
      ∙ ground (arith, row-subscribes cm ct f, rows-subscribes cm ct fs)

  section-subscribes :
      (label count words : String) (cm : Bool) (fs : List FeedListItem)
      → offers (subscribes id) (section d label count words cm fs) ≡ has_new_id id fs
  section-subscribes label count words cm [] = refl
  section-subscribes label count words cm (f ∷ fs) = rows-subscribes cm true (f ∷ fs)

  row-unsubscribes :
      (cm ct : Bool) (f : FeedListItem)
      → offers (unsubscribes id) (source_row d cm ct f) ≡ ct && ((f.id == id) && f.subscribed)
  unfolding source_row
  row-unsubscribes cm ct f = ground arith

  rows-unsubscribes :
      (cm ct : Bool) (fs : List FeedListItem)
      → offers (unsubscribes id) (rows d cm ct fs) ≡ ct && has_subscribed_id id fs
  rows-unsubscribes cm ct [] = ground arith
  rows-unsubscribes cm ct (f ∷ fs) =
      offers-append (unsubscribes id) (source_row d cm ct f) (rows d cm ct fs)
      ∙ ground (arith, row-unsubscribes cm ct f, rows-unsubscribes cm ct fs)

  section-unsubscribes :
      (label count words : String) (cm : Bool) (fs : List FeedListItem)
      → offers (unsubscribes id) (section d label count words cm fs) ≡ has_subscribed_id id fs
  section-unsubscribes label count words cm [] = refl
  section-unsubscribes label count words cm (f ∷ fs) = rows-unsubscribes cm true (f ∷ fs)

  mine-has_id : (fs : List FeedListItem) → has_id id (mine fs) ≡ has_own_id id fs
  unfolding mine
  mine-has_id [] = refl
  mine-has_id (f ∷ fs) = ground (arith, mine-has_id fs)

  parts-has_new_id :
      (fs : List FeedListItem)
      → (has_new_id id (mine fs) || has_new_id id (catalog fs)) ≡ has_new_id id fs
  unfolding mine catalog
  parts-has_new_id [] = refl
  parts-has_new_id (f ∷ fs) = ground (arith, parts-has_new_id fs)

  parts-has_subscribed_id :
      (fs : List FeedListItem)
      → (has_subscribed_id id (mine fs) || has_subscribed_id id (catalog fs))
        ≡ has_subscribed_id id fs
  unfolding mine catalog
  parts-has_subscribed_id [] = refl
  parts-has_subscribed_id (f ∷ fs) = ground (arith, parts-has_subscribed_id fs)

  -- With the radar enabled and no question open, the page of the sources offers to edit and to
  -- delete a feed exactly if it is one of the user's own, to subscribe to it exactly if it is
  -- listed as not subscribed, and to unsubscribe from it exactly if it is listed as subscribed; the
  -- administrator's page offers to edit and to delete exactly the feeds listed, and neither to
  -- subscribe nor to unsubscribe.
  pub sources_offer :
      (feeds : Query (List FeedListItem)) (quota : Option ℕ) (is_pending : Bool)
      → has_code "radar_disabled" feeds.failure ≡ false
      → let items = nullish feeds.found [] in
        let page = sources d feeds quota none is_pending in
        let admin_page = admin_sources d feeds none is_pending in
        (offers (edits id) page ≡ has_own_id id items)
        × (offers (deletes id) page ≡ has_own_id id items)
        × (offers (subscribes id) page ≡ has_new_id id items)
        × (offers (unsubscribes id) page ≡ has_subscribed_id id items)
        × (offers (edits id) admin_page ≡ has_id id items)
        × (offers (deletes id) admin_page ≡ has_id id items)
        × (offers (subscribes id) admin_page ≡ false)
        × (offers (unsubscribes id) admin_page ≡ false)
  unfolding sources admin_sources
  sources_offer feeds quota is_pending e =
      let items = nullish feeds.found [] in
      (
        rw e (simp (offers-append, section-edits) (ground (arith, mine-has_id items))),
        rw e (simp (offers-append, section-deletes) (ground (arith, mine-has_id items))),
        rw e (simp (offers-append, section-subscribes) (ground (arith, parts-has_new_id items))),
        rw e (
            simp (offers-append, section-unsubscribes)
              (ground (arith, parts-has_subscribed_id items))),
        rw e (simp (offers-append, rows-edits) (ground arith)),
        rw e (simp (offers-append, rows-deletes) (ground arith)),
        rw e (simp (offers-append, rows-subscribes) (ground arith)),
        rw e (simp (offers-append, rows-unsubscribes) (ground arith)),
      )
