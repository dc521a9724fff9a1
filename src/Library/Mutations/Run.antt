-- ===== src/Library/Mutations/Run.antt =====
-- The mutations of web/src/features/library/use-mutations.tsx from the click to the end: the cache
-- is patched, the server asked, and the cache settled by the answer.
use linktheca.Prelude.{ℕ, String, ◌⊎◌, ◌≡◌, refl, ◌∙◌, inl, inr}
use linktheca.Web.Http.{Host, Thrown}
use linktheca.Web.App.{World, Result, ok, err}
use linktheca.Web.Schema.{Platform}
use linktheca.Cache.Keys.{Key}
use linktheca.Cache.Interface.{QueryClient}
use linktheca.Library.Types.{LibraryItem}
use linktheca.Library.LibraryKeys
use linktheca.Library.Requests.{UpdateInput, Schemas, save_link, update_item, delete_item}
use linktheca.Library.Mutations.{RollbackCtx, on_mutate, on_error, on_settled, on_saved, on_deleted}
use linktheca.Library.Mutations.Rollback.{on_error-on_mutate}

module _ (qc : QueryClient) (h : Host) (platform : Platform) (schemas : Schemas) where
  open qc use {Cache, get_query_data, get-invalidate}

  abbrev rolled_back {ℓ} : {A : Type ℓ} → ℕ → RollbackCtx → Result A → Cache → Cache
  rolled_back id ctx (ok a) c = c
  rolled_back id ctx (err e) c = on_error qc id ctx c

  -- `useUpdateItem().mutate({ id, input })`
  unfoldable pub use_update_item :
      ℕ → UpdateInput → Cache → World → Result LibraryItem × Cache × World
  use_update_item id input c w =
      let (patched, ctx) = on_mutate qc id input c in
      let (result, after) = update_item h platform schemas id input w in
      (result, on_settled qc id (rolled_back id ctx result patched), after)

  abbrev on_success {ℓ} : {A : Type ℓ} → (Cache → Cache) → Result A → Cache → Cache
  on_success f (ok a) c = f c
  on_success f (err e) c = c

  -- `useSaveLink().mutate(url)`
  unfoldable use_save_link : String → Cache → World → Result LibraryItem × Cache × World
  use_save_link url c w =
      let (result, after) = save_link h platform schemas url w in
      (result, on_success (on_saved qc) result c, after)

  -- `useDeleteItem().mutate(id)`
  unfoldable use_delete_item : ℕ → Cache → World → Result (Unit {0}) × Cache × World
  use_delete_item id c w =
      let (result, after) = delete_item h platform schemas id w in
      (result, on_success (on_deleted qc id) result c, after)

  get-on_settled :
      (id : ℕ) (c : Cache) (k : Key) → get_query_data (on_settled qc id c) k ≡ get_query_data c k
  unfolding on_settled
  get-on_settled id c k =
      get-invalidate _ LibraryKeys.lists k ∙ get-invalidate c (LibraryKeys.detail id) k

  module _ (id : ℕ) (input : UpdateInput) (c : Cache) (k : Key) where
    abbrev optimistic_cache : Cache × RollbackCtx
    optimistic_cache = on_mutate qc id input c

    settled :
        (r : Result LibraryItem)
        → (let d = on_settled qc id (rolled_back id optimistic_cache.1 r optimistic_cache.0) in
            ((e : Thrown) × ((r ≡ err e) × (get_query_data d k ≡ get_query_data c k)))
            ⊎ ((it : LibraryItem) × ((r ≡ ok it)
                  × (get_query_data d k ≡ get_query_data optimistic_cache.0 k))))
    settled (err e) = inl (e, (refl, get-on_settled id _ k ∙ on_error-on_mutate qc id input c k))
    settled (ok it) = inr (it, (refl, get-on_settled id _ k))

    -- An update of an article ends in one of two ways, for every query of the cache: refused, it
    -- reads as before the update; accepted, it reads as the optimistic update left it.
    pub use_update_item_lem :
        (w : World)
        → (let (r, d, after) = use_update_item id input c w in
            ((e : Thrown) × ((r ≡ err e) × (get_query_data d k ≡ get_query_data c k)))
            ⊎ ((it : LibraryItem) × ((r ≡ ok it)
                  × (get_query_data d k ≡ get_query_data (on_mutate qc id input c).0 k))))
    unfolding use_update_item
    use_update_item_lem w = settled (update_item h platform schemas id input w).0
