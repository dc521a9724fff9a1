-- ===== src/Cache/Interface.antt =====
-- The calls of a `QueryClient` that the features make, and what the documentation of
-- `@tanstack/react-query` says of them. The library's code is not part of the repository.
use linktheca.Prelude.{ℕ, ◌≡◌, Bool, true, Option, none, some, List, if◌then◌else◌, any, All}
use linktheca.Cache.Keys.{Key, key_beq, is_prefix}
use linktheca.Library.Types.{LibraryItem, LibraryItemDetail, ListPage}
use linktheca.Radar.Types.{TopicWithStats, MatchView, MatchList, FeedListItem, RadarStatus}

-- `InfiniteListData` of web/src/features/library/use-mutations.tsx
pub record InfiniteListData : Type 0 where
  pub pages : List ListPage
  pub page_params : List ℕ

-- What the features store under their keys.
pub data Data : Type 0 where
  library_list : InfiniteListData → Data
  library_item : LibraryItem → Data
  library_detail : LibraryItemDetail → Data
  topics : List TopicWithStats → Data
  topic : TopicWithStats → Data
  matches : List MatchList → Data
  match : MatchView → Data
  feeds : List FeedListItem → Data
  radar_status : RadarStatus → Data

pub record QueryClient : Type 1 where
  pub Cache : Type 0
  pub get_query_data : Cache → Key → Option Data
  pub set_query_data : Cache → Key → Option Data → Cache
  pub get_queries_data : Cache → Key → List (Key × Option Data)
  pub cancel_queries : Cache → Key → Cache
  pub invalidate_queries : Cache → Key → Cache
  pub remove_queries : Cache → Key → Cache
  pub is_invalidated : Cache → Key → Bool
  pub get-set :
      (c : Cache) (k : Key) (d : Data) (j : Key)
      → get_query_data (set_query_data c k (some d)) j
        ≡ (if key_beq k j then some d else get_query_data c j)
  pub set_undefined : (c : Cache) (k : Key) → set_query_data c k none ≡ c
  pub get-cancel :
      (c : Cache) (p k : Key) → get_query_data (cancel_queries c p) k ≡ get_query_data c k
  pub get-invalidate :
      (c : Cache) (p k : Key) → get_query_data (invalidate_queries c p) k ≡ get_query_data c k
  pub get-remove :
      (c : Cache) (p k : Key)
      → get_query_data (remove_queries c p) k ≡ (if is_prefix p k then none else get_query_data c k)
  pub listed_sound :
      (c : Cache) (p : Key)
      → All (λ e. (is_prefix p e.0 ≡ true) × (e.1 ≡ get_query_data c e.0)) (get_queries_data c p)
  pub listed_complete :
      (c : Cache) (p k : Key) (d : Data)
      → get_query_data c k ≡ some d
      → is_prefix p k ≡ true
      → any (λ e. key_beq e.0 k) (get_queries_data c p) ≡ true
  pub invalidate_marks :
      (c : Cache) (p k : Key) (d : Data)
      → get_query_data c k ≡ some d
      → is_prefix p k ≡ true
      → is_invalidated (invalidate_queries c p) k ≡ true
  pub invalidate_keeps :
      (c : Cache) (p k : Key)
      → is_invalidated c k ≡ true
      → is_invalidated (invalidate_queries c p) k ≡ true
