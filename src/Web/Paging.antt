-- ===== src/Web/Paging.antt =====
-- The paged lists of web/src/features/library/use-library.tsx and
-- web/src/features/radar/use-radar.tsx, which are one code for two kinds of item.
pub mod Loading
pub mod Interface
use linktheca.Prelude.{
  ℕ, zero, suc, ◌+◌, Bool, false, Option, none, some, List, [], ◌∷◌, ◌++◌, length, ltb,
  if◌then◌else◌, is_some,
}

pub record Page {ℓ} (A : Type ℓ) : Type ℓ where
  pub items : List A
  pub total : ℕ

module _ {ℓ} {A : Type ℓ} where
  -- `all.reduce((s, p) => s + p.items.length, 0)`
  abbrev pub sum_from : ℕ → List (Page A) → ℕ
  sum_from s [] = s
  sum_from s (p ∷ ps) = sum_from (s + length p.items) ps

  unfoldable pub get_next_page_param : Page A → List (Page A) → Option ℕ
  get_next_page_param last all =
      let loaded = sum_from 0 all in if ltb loaded last.total then some loaded else none

  -- `pages.flatMap((p) => p.items)`
  unfoldable pub items_of : List (Page A) → List A
  items_of [] = []
  items_of (p ∷ ps) = p.items ++ items_of ps

  -- `pages?.[0]?.total ?? 0`
  unfoldable total_of : List (Page A) → ℕ
  total_of [] = 0
  total_of (p ∷ ps) = p.total

  abbrev pub last_of : Page A → List (Page A) → Page A
  last_of p [] = p
  last_of p (q ∷ ps) = last_of q ps

  -- The parameter of the next page, as an infinite query takes it: 0 for the first page.
  unfoldable pub next_param : List (Page A) → Option ℕ
  next_param [] = some 0
  next_param (p ∷ ps) = get_next_page_param (last_of p ps) (p ∷ ps)

  -- Whether a further page can be asked for: not before the first has come.
  unfoldable pub has_more : List (Page A) → Bool
  has_more [] = false
  has_more (p ∷ ps) = is_some (next_param (p ∷ ps))

  -- The pages after one more was asked for, of a size and at an offset.
  unfoldable pub fetch_next_page : (ℕ → ℕ → Page A) → ℕ → List (Page A) → List (Page A)
  fetch_next_page serve size ps = elim (next_param ps) [
    | none ↦ ps
    | some offset ↦ ps ++ serve size offset ∷ []
  ]

  unfoldable pub rounds : (ℕ → ℕ → Page A) → ℕ → ℕ → List (Page A)
  rounds serve size zero = []
  rounds serve size (suc n) = fetch_next_page serve size (rounds serve size n)
