-- ===== src/Library/Queries.antt =====
-- The queries of web/src/features/library/use-library.tsx: what they ask the server for.
use linktheca.Prelude.{ℕ}
use linktheca.Web.App.{App}
use linktheca.Web.Http.{Host}
use linktheca.Web.Schema.{Platform}
use linktheca.Library.Types.{FilterParams, ListPage, LibraryItem, LibraryItemDetail, page_size}
use linktheca.Library.Filters.{prepare_state}
use linktheca.Library.Requests.{Schemas, list_library, get_library_item, get_library_detail}

module _ (h : Host) (platform : Platform) (schemas : Schemas) where
  -- `queryFn` of `useLibraryQuery`
  unfoldable library_query_fn : FilterParams → ℕ → App ListPage
  library_query_fn filters page_param = list_library h platform schemas (record {
    limit = page_size;
    offset = page_param;
    state = prepare_state filters.state;
    favorite = filters.favorite;
  })

  unfoldable library_item_query_fn : ℕ → App LibraryItem
  library_item_query_fn id = get_library_item h platform schemas id

  unfoldable library_detail_query_fn : ℕ → App LibraryItemDetail
  library_detail_query_fn id = get_library_detail h platform schemas id
