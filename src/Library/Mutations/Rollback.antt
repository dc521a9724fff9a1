-- ===== src/Library/Mutations/Rollback.antt =====
-- `onError` after `onMutate` in `useUpdateItem` of web/src/features/library/use-mutations.tsx.
use linktheca.Prelude.{
  ℕ, ◌≡◌, refl, inl, inr, Bool, true, ◌&&◌, Option, none, some, List, [], ◌∷◌, arith, if◌then◌else◌,
  is_some, Option-cases, any, All,
}
use mathlib.Core.Option
use linktheca.Cache.Keys.{Key, key_beq, key_beq_iff, is_prefix}
use linktheca.Cache.Interface.{Data, library_item, QueryClient}
use linktheca.Library.Types.{LibraryItem}
use linktheca.Library.LibraryKeys
use linktheca.Library.Requests.{UpdateInput}
use linktheca.Library.Mutations.{
  apply_patch, patch_data, as_item, patch_all, set_item, on_mutate, restore_all, on_error,
}

-- The entries of a snapshot that hold data for the key.
abbrev pub touched : List (Key × Option Data) → Key → Bool
touched es k = any (λ e. key_beq e.0 k && is_some e.1) es

module _ (qc : QueryClient) where
  open qc use {
    Cache, get_query_data, set_query_data, get_queries_data, cancel_queries, get-set, set_undefined,
    get-cancel, listed_sound, listed_complete,
  }

  -- The snapshot shows what the cache `c` holds.
  abbrev pub Shows : Cache → List (Key × Option Data) → Type 0
  Shows c es = All (λ e. e.1 ≡ get_query_data c e.0) es

  module _ (id : ℕ) (input : UpdateInput) (c : Cache) where
    pub get-patch_all :
        (es : List (Key × Option Data)) (d : Cache) (k : Key)
        → Shows c es
        → get_query_data (patch_all qc id input es d) k ≡ (
            if touched es k
            then Option.map (patch_data id input) (get_query_data c k)
            else get_query_data d k)
    unfolding patch_all
    get-patch_all [] d k s = refl
    get-patch_all ((key, none) ∷ es) d k (q, s) = ground (arith, get-patch_all es d k s)
    get-patch_all ((key, some x) ∷ es) d k (q, s) = ground (
      arith,
      get-patch_all es (set_query_data d key (some (patch_data id input x))) k s,
      get-set d key (patch_data id input x) k,
      key_beq_iff key k,
    )

  module _ (c : Cache) where
    get-restore_all :
        (es : List (Key × Option Data)) (d : Cache) (k : Key)
        → Shows c es
        → get_query_data (restore_all qc es d) k
          ≡ (if touched es k then get_query_data c k else get_query_data d k)
    unfolding restore_all
    get-restore_all [] d k s = refl
    get-restore_all ((key, none) ∷ es) d k (q, s) =
        ground (arith, get-restore_all es (set_query_data d key none) k s, set_undefined d key)
    get-restore_all ((key, some x) ∷ es) d k (q, s) = ground (
      arith,
      get-restore_all es (set_query_data d key (some x)) k s,
      get-set d key x k,
      key_beq_iff key k,
    )

  pub get-set_item :
      (id : ℕ) (o : Option LibraryItem) (c : Cache) (k : Key)
      → get_query_data (set_item qc id o c) k ≡ (
          if key_beq (LibraryKeys.item id) k && is_some o
          then Option.map library_item o
          else get_query_data c k)
  unfolding set_item
  get-set_item id none c k = ground arith
  get-set_item id (some it) c k =
      ground (arith, get-set c (LibraryKeys.item id) (library_item it) k)

  eq-some_of_as_item :
      (o : Option Data) (it : LibraryItem) → as_item o ≡ some it → o ≡ some (library_item it)
  eq-some_of_as_item o it h = ground arith

  listed-Shows :
      (c : Cache) (es : List (Key × Option Data)) (p : Key)
      → All (λ e. (is_prefix p e.0 ≡ true) × (e.1 ≡ get_query_data c e.0)) es
      → Shows c es
  listed-Shows c [] p h = tt
  listed-Shows c (e ∷ es) p ((_, q), h) = (q, listed-Shows c es p h)

  module _ (id : ℕ) (input : UpdateInput) (before : Cache) (k : Key) where
    abbrev pub c : Cache
    c = cancel_queries before LibraryKeys.all

    abbrev snapshot : List (Key × Option Data)
    snapshot = get_queries_data c LibraryKeys.lists

    abbrev item_before : Option LibraryItem
    item_before = as_item (get_query_data c (LibraryKeys.item id))

    pub snapshot-Shows : Shows c snapshot
    snapshot-Shows = listed-Shows c snapshot LibraryKeys.lists (listed_sound c LibraryKeys.lists)

    kept_item :
        (it : LibraryItem)
        → item_before ≡ some it
        → key_beq (LibraryKeys.item id) k ≡ true
        → get_query_data c k ≡ some (library_item it)
    kept_item it e q = rw (← (key_beq_iff (LibraryKeys.item id) k).0 q) (eq-some_of_as_item _ it e)

    -- After onError, every query of the cache reads as before onMutate of the same update.
    pub on_error-on_mutate :
        get_query_data
          (on_error qc id (on_mutate qc id input before).1 (on_mutate qc id input before).0)
          k
        ≡ get_query_data before k
    unfolding on_mutate on_error set_item
    on_error-on_mutate = elim (Option-cases item_before) [
      | inl e ↦ rw e (
          ground (
            arith,
            get-restore_all c snapshot (patch_all qc id input snapshot c) k snapshot-Shows,
            get-patch_all id input c snapshot c k snapshot-Shows,
            get-cancel before LibraryKeys.all k,
          ))
      | inr (it, e) ↦ rw e (
          ground (
            arith,
            get-set_item id (some it)
                (restore_all qc snapshot
                  (set_item qc id (some (apply_patch it input)) (patch_all qc id input snapshot c)))
                k,
            get-restore_all c snapshot
                (set_item qc id (some (apply_patch it input)) (patch_all qc id input snapshot c)) k
                snapshot-Shows,
            get-set_item id (some (apply_patch it input)) (patch_all qc id input snapshot c) k,
            get-patch_all id input c snapshot c k snapshot-Shows,
            kept_item it e,
            get-cancel before LibraryKeys.all k,
          ))
    ]
