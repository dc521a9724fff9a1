-- ===== src/Library/Mutations.antt =====
-- web/src/features/library/use-mutations.tsx: the optimistic update of an item and its rollback.
pub mod Rollback
pub mod Optimistic
pub mod Settling
pub mod Run
use linktheca.Prelude.{
  ℕ, String, Bool, true, false, Option, none, some, List, [], ◌∷◌, map, ◌==◌, nat_eq, nullish,
  if◌then◌else◌,
}
use mathlib.Core.Option
use linktheca.Cache.Keys.{Key}
use linktheca.Cache.Interface.{
  InfiniteListData, Data, library_list, library_item, library_detail, topics, topic, matches, match,
  feeds, radar_status, QueryClient,
}
use linktheca.Library.Types.{LibraryItem, ListPage}
use linktheca.Library.LibraryKeys
use linktheca.Library.Requests.{UpdateInput}

unfoldable pub apply_patch : LibraryItem → UpdateInput → LibraryItem
apply_patch item input = record item {
  state = nullish input.state item.state;
  is_favorite = nullish input.is_favorite item.is_favorite;
  note = nullish input.note item.note;
}

unfoldable pub patch_if : ℕ → UpdateInput → LibraryItem → LibraryItem
patch_if id input it = if it.id == id then apply_patch it input else it

unfoldable pub patch_page : ℕ → UpdateInput → ListPage → ListPage
patch_page id input page = record page { items = map (patch_if id input) page.items }

-- Every page that holds the item.
unfoldable pub patch_list : ℕ → UpdateInput → InfiniteListData → InfiniteListData
patch_list id input d = record d { pages = map (patch_page id input) d.pages }

-- The data of a list key is a list, and that of an item key an item.
unfoldable pub patch_data : ℕ → UpdateInput → Data → Data
patch_data id input (library_list d) = library_list (patch_list id input d)
patch_data id input d = d

abbrev pub as_item : Option Data → Option LibraryItem
as_item (some (library_item it)) = some it
as_item _ = none

pub record RollbackCtx : Type 0 where
  pub previous_lists : List (Key × Option Data)
  pub previous_item : Option LibraryItem

module _ (qc : QueryClient) where
  open qc use {
    Cache, get_query_data, set_query_data, get_queries_data, cancel_queries, invalidate_queries,
    remove_queries,
  }

  -- `previousLists.forEach` of `onMutate`
  unfoldable pub patch_all : ℕ → UpdateInput → List (Key × Option Data) → Cache → Cache
  patch_all id input [] c = c
  patch_all id input ((key, none) ∷ rest) c = patch_all id input rest c
  patch_all id input ((key, some d) ∷ rest) c =
      patch_all id input rest (set_query_data c key (some (patch_data id input d)))

  unfoldable pub set_item : ℕ → Option LibraryItem → Cache → Cache
  set_item id none c = c
  set_item id (some it) c = set_query_data c (LibraryKeys.item id) (some (library_item it))

  unfoldable pub on_mutate : ℕ → UpdateInput → Cache → Cache × RollbackCtx
  on_mutate id input before =
      let c = cancel_queries before LibraryKeys.all in
      let ctx : RollbackCtx = record {
        previous_lists = get_queries_data c LibraryKeys.lists;
        previous_item = as_item (get_query_data c (LibraryKeys.item id));
      } in
      let patched = patch_all id input ctx.previous_lists c in
      (set_item id (Option.map (λ it. apply_patch it input) ctx.previous_item) patched, ctx)

  -- `ctx?.previousLists.forEach` of `onError`
  unfoldable pub restore_all : List (Key × Option Data) → Cache → Cache
  restore_all [] c = c
  restore_all ((key, d) ∷ rest) c = restore_all rest (set_query_data c key d)

  unfoldable pub on_error : ℕ → RollbackCtx → Cache → Cache
  on_error id ctx c = set_item id ctx.previous_item (restore_all ctx.previous_lists c)

  unfoldable pub on_settled : ℕ → Cache → Cache
  on_settled id c =
      invalidate_queries (invalidate_queries c (LibraryKeys.detail id)) LibraryKeys.lists

  -- `useSaveLink`
  unfoldable pub on_saved : Cache → Cache
  on_saved c = invalidate_queries c LibraryKeys.all

  -- `useDeleteItem`
  unfoldable pub on_deleted : ℕ → Cache → Cache
  on_deleted id c =
      invalidate_queries
        (remove_queries (remove_queries c (LibraryKeys.detail id)) (LibraryKeys.item id))
        LibraryKeys.lists
