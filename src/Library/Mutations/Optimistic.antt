-- ===== src/Library/Mutations/Optimistic.antt =====
-- What an update of web/src/features/library/use-mutations.tsx shows before the server answers.
use linktheca.Prelude.{
  ℕ, String, ◌≡◌, refl, ◌∙◌, sym, ap, inl, inr, Bool, true, false, ◌&&◌, Option, none, some, map,
  ◌==◌, List, [], ◌∷◌, arith, if◌then◌else◌, is_some, Option-cases, any, All, nat_eq,
}
use mathlib.Core.Option
use mathlib.Core.Path.{ap₂}
use linktheca.Cache.Keys.{Key, key_beq, key_beq_iff, is_prefix}
use linktheca.Cache.Interface.{InfiniteListData, Data, library_list, library_item, QueryClient}
use linktheca.Library.LibraryKeys
use linktheca.Library.Types.{LibraryItem, LibraryState, ListPage}
use linktheca.Library.Requests.{UpdateInput}
use linktheca.Library.Mutations.{
  apply_patch, patch_if, patch_page, patch_list, patch_data, as_item, on_mutate,
}
use linktheca.Library.Mutations.Rollback.{
  touched, Shows, get-patch_all, get-set_item, snapshot-Shows,
}

abbrev patch_item : UpdateInput → Data → Data
patch_item input (library_item it) = library_item (apply_patch it input)
patch_item input d = d

abbrev optimistic : ℕ → UpdateInput → Key → Option Data → Option Data
optimistic id input k o =
    if is_prefix LibraryKeys.lists k
    then Option.map (patch_data id input) o
    else if key_beq (LibraryKeys.item id) k
    then Option.map (patch_item input) o
    else o

-- An article after an input: what the input has of state, favorite and note, and the rest as it was.
abbrev with_state : Option LibraryState → LibraryItem → LibraryItem
with_state none it = it
with_state (some s) it = record it { state = s }

abbrev with_favorite : Option Bool → LibraryItem → LibraryItem
with_favorite none it = it
with_favorite (some b) it = record it { is_favorite = b }

abbrev with_note : Option (Option String) → LibraryItem → LibraryItem
with_note none it = it
with_note (some note) it = record it { note = note }

abbrev edited : UpdateInput → LibraryItem → LibraryItem
edited input it = with_note input.note (with_favorite input.is_favorite (with_state input.state it))

-- The articles of a page, and the pages of a list, with the one article edited wherever it stands.
abbrev items_edited : ℕ → UpdateInput → List LibraryItem → List LibraryItem
items_edited id input [] = []
items_edited id input (it ∷ is) =
    (if it.id == id then edited input it else it) ∷ items_edited id input is

abbrev pages_edited : ℕ → UpdateInput → List ListPage → List ListPage
pages_edited id input [] = []
pages_edited id input (p ∷ ps) =
    record { items = items_edited id input p.items; total = p.total } ∷ pages_edited id input ps

-- What a look-up is to find: a list with its pages edited and the parameters of the pages as they
-- were; under the key of the article, the article edited; anything else as it was.
abbrev pub expected : ℕ → UpdateInput → Key → Option Data → Option Data
expected id input k none = none
expected id input k (some (library_list d)) =
    if is_prefix LibraryKeys.lists k
    then some (
        library_list
          (record { pages = pages_edited id input d.pages; page_params = d.page_params }))
    else some (library_list d)
expected id input k (some (library_item it)) =
    if key_beq (LibraryKeys.item id) k
    then some (library_item (edited input it))
    else some (library_item it)
expected id input k (some d) = some d

same_prefix : (p k l : Key) → key_beq k l ≡ true → is_prefix p k ≡ is_prefix p l
same_prefix p k l e = ap (is_prefix p) ((key_beq_iff k l).0 e)

apply_patch-edited :
    (state : Option LibraryState) (favorite : Option Bool) (note : Option (Option String))
    (it : LibraryItem)
    → let input : UpdateInput = record { state = state; is_favorite = favorite; note = note } in
      apply_patch it input ≡ edited input it
unfolding apply_patch
apply_patch-edited none none none it = refl
apply_patch-edited none none (some n) it = refl
apply_patch-edited none (some b) none it = refl
apply_patch-edited none (some b) (some n) it = refl
apply_patch-edited (some s) none none it = refl
apply_patch-edited (some s) none (some n) it = refl
apply_patch-edited (some s) (some b) none it = refl
apply_patch-edited (some s) (some b) (some n) it = refl

module _ (id : ℕ) (input : UpdateInput) where
  as_edited : (it : LibraryItem) → apply_patch it input ≡ edited input it
  as_edited it = apply_patch-edited input.state input.is_favorite input.note it

  map-patch_if : (is : List LibraryItem) → map (patch_if id input) is ≡ items_edited id input is
  unfolding patch_if
  map-patch_if [] = refl
  map-patch_if (it ∷ is) = ap₂ (λ x xs. x ∷ xs) (rw (as_edited it) refl) (map-patch_if is)

  map-patch_page : (ps : List ListPage) → map (patch_page id input) ps ≡ pages_edited id input ps
  unfolding patch_page
  map-patch_page [] = refl
  map-patch_page (p ∷ ps) =
      ap₂ (λ is qs. record { items = is; total = p.total } ∷ qs) (map-patch_if p.items)
        (map-patch_page ps)

  patch_list-edited :
      (d : InfiniteListData)
      → patch_list id input d
        ≡ record { pages = pages_edited id input d.pages; page_params = d.page_params }
  unfolding patch_list
  patch_list-edited d =
      ap (λ ps. record { pages = ps; page_params = d.page_params }) (map-patch_page d.pages)

  optimistic-expected :
      (k : Key) (o : Option Data) → optimistic id input k o ≡ expected id input k o
  unfolding patch_data
  optimistic-expected k none = ground arith
  optimistic-expected k (some (library_list d)) = ground (arith, patch_list-edited d)
  optimistic-expected k (some (library_item it)) =
      ground (arith, as_edited it, same_prefix LibraryKeys.lists (LibraryKeys.item id) k)
  optimistic-expected k (some d) = ground arith

module _ (qc : QueryClient) where
  open qc use {
    Cache, get_query_data, get_queries_data, cancel_queries, get-cancel, listed_sound,
    listed_complete,
  }

  module _ (c : Cache) (p k : Key) where
    touched_sound :
        (es : List (Key × Option Data))
        → All (λ e. (is_prefix p e.0 ≡ true) × (e.1 ≡ get_query_data c e.0)) es
        → touched es k ≡ true
        → (is_prefix p k ≡ true) × (is_some (get_query_data c k) ≡ true)
    touched_sound [] s h = cc
    touched_sound ((key, o) ∷ es) ((q, r), s) h =
        ground (arith, touched_sound es s, key_beq_iff key k)

    touched_of_any :
        (es : List (Key × Option Data))
        → Shows qc c es
        → any (λ e. key_beq e.0 k) es ≡ true
        → is_some (get_query_data c k) ≡ true
        → touched es k ≡ true
    touched_of_any [] s h g = cc
    touched_of_any ((key, o) ∷ es) (r, s) h g =
        ground (arith, touched_of_any es s, key_beq_iff key k)

  module _ (id : ℕ) (input : UpdateInput) (before : Cache) (k : Key) where
    abbrev start : Cache
    start = cancel_queries before LibraryKeys.all

    abbrev entries : List (Key × Option Data)
    entries = get_queries_data start LibraryKeys.lists

    entries-Shows : Shows qc start entries
    entries-Shows = snapshot-Shows qc id input before k

    touched_iff :
        touched entries k ≡ (is_prefix LibraryKeys.lists k && is_some (get_query_data start k))
    touched_iff = elim (Option-cases (get_query_data start k)) [
      | inl e ↦ rw e (
          ground (
            arith,
            touched_sound start LibraryKeys.lists k entries (listed_sound start LibraryKeys.lists),
            e,
          ))
      | inr (d, e) ↦ rw e (
          ground (
            arith,
            touched_sound start LibraryKeys.lists k entries (listed_sound start LibraryKeys.lists),
            touched_of_any start LibraryKeys.lists k entries entries-Shows,
            listed_complete start LibraryKeys.lists k d e,
            e,
          ))
    ]

    item_elsewhere : key_beq (LibraryKeys.item id) k ≡ true → is_prefix LibraryKeys.lists k ≡ false
    item_elsewhere e = sym (same_prefix LibraryKeys.lists (LibraryKeys.item id) k e)

    patched_as_item : (o : Option Data) → as_item o ≡ none → Option.map (patch_item input) o ≡ o
    patched_as_item o e = ground arith

    found_item :
        key_beq (LibraryKeys.item id) k ≡ true
        → get_query_data start (LibraryKeys.item id) ≡ get_query_data start k
    found_item e = ap (get_query_data start) ((key_beq_iff (LibraryKeys.item id) k).0 e)

    get-patched :
        get_query_data (on_mutate qc id input before).0 k
        ≡ optimistic id input k (get_query_data before k)
    unfolding on_mutate
    get-patched = rw (← get-cancel before LibraryKeys.all k) (
        rw (get-set_item qc id) (
          ground (
            arith,
            get-patch_all qc id input start entries start k entries-Shows,
            touched_iff,
            item_elsewhere,
            found_item,
            patched_as_item (get_query_data start k),
          )))

    -- After onMutate of an update, a look-up of any key finds what it found before, but for two: in
    -- every list of the library the article, on each page and wherever it stands, has the state,
    -- the favorite and the note of those that the update has and is otherwise as it was, as are the
    -- other articles, the totals and the page parameters; and the article under its own key is
    -- changed in the same way.
    pub get-on_mutate :
        get_query_data (on_mutate qc id input before).0 k
        ≡ expected id input k (get_query_data before k)
    get-on_mutate = get-patched ∙ optimistic-expected id input k (get_query_data before k)
