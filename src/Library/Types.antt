-- ===== src/Library/Types.antt =====
-- web/src/features/library/types.ts
use linktheca.Prelude.{ℕ, String, Bool, Option}
use linktheca.Web.Date.{Date}
use linktheca.Web.Paging.{Page}

pub data LibraryState : Type 0 where
  unread read archived : LibraryState

pub data LibraryFilterState : Type 0 where
  all read archived : LibraryFilterState

pub record LibraryItem : Type 0 where
  pub id : ℕ
  pub state : LibraryState
  pub is_favorite : Bool
  pub note : Option String
  pub saved_at : Date
  pub read_at : Option Date
  pub url : String
  pub title : Option String
  pub excerpt : Option String
  pub reading_time_seconds : Option ℕ
  pub image : Option String

pub record ArticleContent : Type 0 where
  pub id : ℕ
  pub url : String
  pub canonical_url : Option String
  pub title : Option String
  pub byline : Option String
  pub excerpt : Option String
  pub text : Option String
  pub html : Option String
  pub lang : Option String
  pub reading_time_seconds : Option ℕ
  pub image : Option String
  pub favicon : Option String
  pub fetched_at : Date
  pub fetch_error : Option String

pub record LibraryItemDetail : Type 0 where
  pub item : LibraryItem
  pub open item use *
  pub content : ArticleContent

abbrev pub ListPage : Type 0
ListPage = Page LibraryItem

-- A field of an input that may be absent is an `Option`.
pub record FilterParams : Type 0 where
  pub state : Option LibraryFilterState
  pub favorite : Option Bool

abbrev pub page_size : ℕ
page_size = 20
