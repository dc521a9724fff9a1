-- ===== src/Library/Mutations/Settling.antt =====
-- The end of an update, and what a deletion leaves in the cache
-- (web/src/features/library/use-mutations.tsx).
use linktheca.Prelude.{
  ℕ, ◌≡◌, refl, ◌∙◌, ap, true, none, some, List, [], ◌∷◌, map, arith, if◌then◌else◌, ◌||◌, ◌==◌,
  nat_eq,
}
use linktheca.Cache.Keys.{Key, is_prefix}
use linktheca.Cache.Interface.{Data, QueryClient}
use linktheca.Library.Types.{LibraryItem, ListPage}
use linktheca.Library.LibraryKeys
use linktheca.Library.Requests.{UpdateInput}
use linktheca.Library.Mutations.{apply_patch, patch_if, patch_page, on_settled, on_deleted}

-- A patch repeated is the patch done once.
apply_patch_idem :
    (it : LibraryItem) (input : UpdateInput)
    → apply_patch (apply_patch it input) input ≡ apply_patch it input
unfolding apply_patch
apply_patch_idem it input = ground arith

abbrev pub ids : List LibraryItem → List ℕ
ids items = map (λ (it : LibraryItem). it.id) items

abbrev pub others : ℕ → List LibraryItem → List LibraryItem
others id [] = []
others id (it ∷ items) = let rest = others id items in if it.id == id then rest else it ∷ rest

module _ (id : ℕ) (input : UpdateInput) where
  ids-patch : (items : List LibraryItem) → ids (map (patch_if id input) items) ≡ ids items
  unfolding patch_if apply_patch
  ids-patch [] = refl
  ids-patch (it ∷ items) = ground (arith, ids-patch items)

  others-patch :
      (items : List LibraryItem) → others id (map (patch_if id input) items) ≡ others id items
  unfolding patch_if apply_patch
  others-patch [] = refl
  others-patch (it ∷ items) = ground (arith, others-patch items)

  patch_idem :
      (items : List LibraryItem)
      → map (patch_if id input) (map (patch_if id input) items) ≡ map (patch_if id input) items
  unfolding patch_if apply_patch
  patch_idem [] = refl
  patch_idem (it ∷ items) = ground (arith, patch_idem items)

  -- What a patch of a page leaves alone.
  pub record KeepsPage (page page' : ListPage) : Type 0 where
    pub ids : ids page'.items ≡ ids page.items
    pub others : others id page'.items ≡ others id page.items
    pub total : page'.total ≡ page.total

  patch_page-KeepsPage :
      (page : ListPage)
      → KeepsPage page (patch_page id input page)
        × (patch_page id input (patch_page id input page) ≡ patch_page id input page)
  unfolding patch_page
  patch_page-KeepsPage page = (
    record { ids = ids-patch page.items; others = others-patch page.items; total = refl },
    ap (λ (items : List LibraryItem). record { items = items; total = page.total })
        (patch_idem page.items),
  )

module _ (qc : QueryClient) where
  open qc use {
    Cache, get_query_data, is_invalidated, get-invalidate, get-remove, invalidate_marks,
    invalidate_keeps, invalidate_queries, remove_queries,
  }

  module _ (id : ℕ) (c : Cache) (k : Key) where
    on_settled_marks :
        (d : Data)
        → get_query_data c k ≡ some d
        → (is_prefix (LibraryKeys.detail id) k || is_prefix LibraryKeys.lists k) ≡ true
        → (is_invalidated (on_settled qc id c) k ≡ true)
          × (get_query_data (on_settled qc id c) k ≡ some d)
    unfolding on_settled
    on_settled_marks d e h =
        let first = get-invalidate c (LibraryKeys.detail id) k ∙ e in
        ground (
          arith,
          invalidate_marks c (LibraryKeys.detail id) k d e,
          invalidate_marks (invalidate_queries c (LibraryKeys.detail id)) LibraryKeys.lists k d
              first,
          invalidate_keeps (invalidate_queries c (LibraryKeys.detail id)) LibraryKeys.lists k,
          get-invalidate (invalidate_queries c (LibraryKeys.detail id)) LibraryKeys.lists k,
        )

    get-on_deleted : get_query_data (on_deleted qc id c) k ≡ (
        if is_prefix (LibraryKeys.detail id) k || is_prefix (LibraryKeys.item id) k
        then none
        else get_query_data c k)
    unfolding on_deleted
    get-on_deleted = ground (
      arith,
      get-invalidate
          (remove_queries (remove_queries c (LibraryKeys.detail id)) (LibraryKeys.item id))
          LibraryKeys.lists k,
      get-remove (remove_queries c (LibraryKeys.detail id)) (LibraryKeys.item id) k,
      get-remove c (LibraryKeys.detail id) k,
    )
