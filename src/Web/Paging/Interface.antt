-- ===== src/Web/Paging/Interface.antt =====
-- `useInfiniteQuery`, and what the documentation of `@tanstack/react-query` says of it. The library's
-- code is not part of the repository.
use linktheca.Prelude.{ℕ, zero, suc, ◌≡◌, Bool, List, []}
use linktheca.Web.Paging.{Page, has_more, fetch_next_page}

-- The query is used with `initialPageParam: 0` and the `getNextPageParam` of Paging, and its
-- `queryFn` gives the page of a size at an offset.
pub record InfiniteQuery (A : Type 0) : Type 1 where
  pub Query : Type 0
  pub new : Query
  pub pages : Query → List (Page A)
  pub has_next_page : Query → Bool
  pub fetch_next : (ℕ → ℕ → Page A) → ℕ → Query → Query
  pub pages-new : pages new ≡ []
  pub pages-fetch_next :
      (serve : ℕ → ℕ → Page A) (size : ℕ) (q : Query)
      → pages (fetch_next serve size q) ≡ fetch_next_page serve size (pages q)
  pub has_next_page_lem : (q : Query) → has_next_page q ≡ has_more (pages q)

-- The query after `n` rounds of `fetchNextPage`.
unfoldable pub loads : {A : Type 0} (iq : InfiniteQuery A) → (ℕ → ℕ → Page A) → ℕ → ℕ → iq.Query
loads iq serve size zero = iq.new
loads iq serve size (suc n) = iq.fetch_next serve size (loads iq serve size n)
