-- ===== src/Web/Paging/Loading.antt =====
-- Loading page after page from a server that gives slices of one list.
use linktheca.Prelude.{
  ◌⊎◌, ℕ, zero, suc, ◌+◌, ◌*◌, ◌≤◌, ◌<◌, ◌≡◌, refl, ◌∙◌, sym, ap, false, Option, none, some, List,
  [], ◌∷◌, ◌++◌, arith, length, length-append, append_assoc, append_nil, take, drop, length-take,
  take_add, take_at, take_all, is_some, ltb, inl, inr, if◌then◌else◌,
}
use linktheca.Web.Paging.Interface.{InfiniteQuery, loads}
use linktheca.Web.Paging.{
  Page, sum_from, get_next_page_param, items_of, last_of, next_param, has_more, fetch_next_page,
  rounds,
}

module _ {ℓ} {A : Type ℓ} where
  sum_from-items : (s : ℕ) (ps : List (Page A)) → sum_from s ps ≡ s + length (items_of ps)
  unfolding items_of
  sum_from-items s [] = omega arith
  sum_from-items s (p ∷ ps) =
      omega (arith, sum_from-items (s + length p.items) ps, length-append p.items (items_of ps))

  items_of-append :
      (ps : List (Page A)) (q : Page A) → items_of (ps ++ q ∷ []) ≡ items_of ps ++ q.items
  unfolding items_of
  items_of-append [] q = append_nil q.items
  items_of-append (p ∷ ps) q =
      ap (λ ys. p.items ++ ys) (items_of-append ps q)
      ∙ sym (append_assoc p.items (items_of ps) q.items)

  last_of-append : (p : Page A) (ps : List (Page A)) (q : Page A) → last_of p (ps ++ q ∷ []) ≡ q
  last_of-append p [] q = refl
  last_of-append p (r ∷ ps) q = last_of-append r ps q

  loaded : (ps : List (Page A)) → sum_from 0 ps ≡ length (items_of ps)
  loaded ps = sum_from-items 0 ps ∙ omega arith

  -- The parameter behind a last page is the count of the items shown, as long as it is below that
  -- page's total.
  next_param-append :
      (ps : List (Page A)) (q : Page A)
      → next_param (ps ++ q ∷ []) ≡ (
          let shown = length (items_of (ps ++ q ∷ [])) in
          if ltb shown q.total then some shown else none)
  unfolding next_param get_next_page_param
  next_param-append [] q = rw (loaded (q ∷ [])) refl
  next_param-append (p ∷ ps) q = rw (loaded (p ∷ ps ++ q ∷ []), last_of-append p ps q) refl

-- A server that gives slices of one list.
abbrev pub slices {ℓ} : {A : Type ℓ} → List A → ℕ → ℕ → Page A
slices xs limit offset = record { items = take limit (drop offset xs); total = length xs }

module _ {ℓ} {A : Type ℓ} (xs : List A) (size : ℕ) where
  -- After `n` rounds: the first items, and either more to ask for or nothing.
  abbrev Loaded : ℕ → List (Page A) → Type ℓ
  Loaded n ps =
      (items_of ps ≡ take (n * size) xs)
      × (((next_param ps ≡ some (length (items_of ps)))
            × ((n ≡ 0) ⊎ (length (items_of ps) < length xs)))
          ⊎ ((next_param ps ≡ none) × (length xs ≤ length (items_of ps))))

  after_page :
      (n : ℕ) (ps : List (Page A)) (q : Page A)
      → q.total ≡ length xs
      → ((next_param (ps ++ q ∷ []) ≡ some (length (items_of (ps ++ q ∷ []))))
          × ((n ≡ 0) ⊎ (length (items_of (ps ++ q ∷ [])) < length xs)))
        ⊎ ((next_param (ps ++ q ∷ []) ≡ none) × (length xs ≤ length (items_of (ps ++ q ∷ []))))
  after_page n ps q e = ground (arith, next_param-append ps q)

  mul_suc : (n : ℕ) → suc n * size ≡ n * size + size
  mul_suc n = omega arith

  fetch-Loaded :
      (n : ℕ) (ps : List (Page A))
      → Loaded n ps
      → Loaded (suc n) (fetch_next_page (slices xs) size ps)
  unfolding fetch_next_page items_of next_param
  fetch-Loaded n ps (e, inl (more, _)) =
      let page = slices xs size (length (items_of ps)) in
      rw (fetch_next_page, more)
        (
          items_of-append ps page
              ∙ ap (λ ys. ys ++ take size (drop (length ys) xs)) e
              ∙ take_add (n * size) size xs
              ∙ take_at (n * size + size) (suc n * size) xs (sym (mul_suc n)),
          after_page (suc n) ps page refl,
        )
  fetch-Loaded n ps (e, inr (done, long)) =
      let full : length xs ≤ n * size = omega (arith, length-take (n * size) xs, ap length e) in
      rw (fetch_next_page, done)
        (
          e
              ∙ take_all (n * size) xs full
              ∙ sym (take_all (suc n * size) xs (omega (arith, mul_suc n, full))),
          inr (done, long),
        )

  rounds-Loaded : (n : ℕ) → Loaded n (rounds (slices xs) size n)
  unfolding rounds items_of next_param
  rounds-Loaded zero = (take_at 0 (0 * size) xs (omega arith), inl (refl, inl refl))
  rounds-Loaded (suc n) = fetch-Loaded n (rounds (slices xs) size n) (rounds-Loaded n)

  appended :
      (p : Page A) (ps : List (Page A)) (o : Option ℕ)
      → (let after : List (Page A) = elim o [
        | none ↦ p ∷ ps
        | some k ↦ (p ∷ ps) ++ slices xs size k ∷ []
      ] in
          has_more after ≡ is_some (next_param after))
  unfolding has_more
  appended p ps none = refl
  appended p ps (some k) = refl

  -- Once a page has been asked for, there is one.
  has_more-fetch :
      (ps : List (Page A))
      → has_more (fetch_next_page (slices xs) size ps)
        ≡ is_some (next_param (fetch_next_page (slices xs) size ps))
  unfolding has_more fetch_next_page next_param
  has_more-fetch [] = refl
  has_more-fetch (p ∷ ps) = appended p ps (next_param (p ∷ ps))

  rounds_more :
      (n : ℕ)
      → has_more (rounds (slices xs) size (suc n))
        ≡ ltb (length (take (suc n * size) xs)) (length xs)
  unfolding rounds
  rounds_more n =
      has_more-fetch (rounds (slices xs) size n)
      ∙ ground (arith, rounds-Loaded (suc n), ap length (rounds-Loaded (suc n)).0)

module _ {A : Type 0} (iq : InfiniteQuery A) (xs : List A) (size : ℕ) where
  open iq use {pages, has_next_page, pages-new, pages-fetch_next, has_next_page_lem}

  abbrev after : ℕ → iq.Query
  after n = loads iq (slices xs) size n

  pages-loads : (n : ℕ) → pages (loads iq (slices xs) size n) ≡ rounds (slices xs) size n
  unfolding loads rounds
  pages-loads zero = pages-new
  pages-loads (suc n) =
      pages-fetch_next (slices xs) size (after n)
      ∙ ap (fetch_next_page (slices xs) size) (pages-loads n)

  -- If the server gives slices of a list, then after n rounds the pages show its first n * size
  -- items, and after n + 1 rounds a further page is offered exactly if the first (n + 1) * size
  -- items are not the whole list.
  loads_shown :
      (n : ℕ)
      → (items_of (pages (loads iq (slices xs) size n)) ≡ take (n * size) xs)
        × (has_next_page (loads iq (slices xs) size (suc n))
            ≡ ltb (length (take (suc n * size) xs)) (length xs))
  loads_shown n = (
    ap items_of (pages-loads n) ∙ (rounds-Loaded xs size n).0,
    has_next_page_lem (after (suc n)) ∙ ap has_more (pages-loads (suc n)) ∙ rounds_more xs size n,
  )

  -- If the server gives slices of a list, and the rounds of a page size are enough for its length,
  -- then after them, at least one, the pages show exactly the list and no further page is offered.
  pub loads_complete :
      (n : ℕ)
      → length xs ≤ suc n * size
      → (items_of (pages (loads iq (slices xs) size (suc n))) ≡ xs)
        × (has_next_page (loads iq (slices xs) size (suc n)) ≡ false)
  loads_complete n h = (
    (loads_shown (suc n)).0 ∙ take_all (suc n * size) xs h,
    (loads_shown n).1 ∙ ground (arith, take_all (suc n * size) xs h),
  )
