-- ===== src/Library/Schemas.antt =====
-- web/src/features/library/schemas.ts: from the server's words to the client's. A field that may be
-- absent or null is an `Option` of an `Option`.
use linktheca.Prelude.{ℕ, String, Bool, Option, none, some, List, map, truthy}
use mathlib.Core.Option
use linktheca.Web.Date.{Date}
use linktheca.Library.Types.{LibraryState, LibraryItem, ArticleContent, LibraryItemDetail, ListPage}

pub record RawItem : Type 0 where
  pub id : ℕ
  pub state : LibraryState
  pub is_favorite : Bool
  pub note : Option (Option String)
  pub saved_at : String
  pub read_at : Option (Option String)
  pub url : String
  pub title : Option (Option String)
  pub excerpt : Option (Option String)
  pub reading_time_seconds : Option (Option ℕ)
  pub image : Option (Option String)

pub record RawContent : Type 0 where
  pub id : ℕ
  pub url : String
  pub canonical_url : Option (Option String)
  pub title : Option (Option String)
  pub byline : Option (Option String)
  pub excerpt : Option (Option String)
  pub text : Option (Option String)
  pub html : Option (Option String)
  pub lang : Option (Option String)
  pub reading_time_seconds : Option (Option ℕ)
  pub image : Option (Option String)
  pub favicon : Option (Option String)
  pub fetched_at : String
  pub fetch_error : Option (Option String)

pub record RawItemDetail : Type 0 where
  pub item : RawItem
  pub open item use *
  pub content : RawContent

pub record RawListPage : Type 0 where
  pub items : List RawItem
  pub total : ℕ

-- `v ?? null`
abbrev pub nn {ℓ} : {A : Type ℓ} → Option (Option A) → Option A
nn none = none
nn (some v) = v

-- `new Date(…)` reads a text.
module _ (new_date : String → Date) where
  unfoldable pub map_item : RawItem → LibraryItem
  map_item raw = record {
    id = raw.id;
    state = raw.state;
    is_favorite = raw.is_favorite;
    note = nn raw.note;
    saved_at = new_date raw.saved_at;
    read_at = Option.map new_date (truthy (nn raw.read_at));
    url = raw.url;
    title = nn raw.title;
    excerpt = nn raw.excerpt;
    reading_time_seconds = nn raw.reading_time_seconds;
    image = nn raw.image;
  }

  unfoldable pub map_content : RawContent → ArticleContent
  map_content raw = record {
    id = raw.id;
    url = raw.url;
    canonical_url = nn raw.canonical_url;
    title = nn raw.title;
    byline = nn raw.byline;
    excerpt = nn raw.excerpt;
    text = nn raw.text;
    html = nn raw.html;
    lang = nn raw.lang;
    reading_time_seconds = nn raw.reading_time_seconds;
    image = nn raw.image;
    favicon = nn raw.favicon;
    fetched_at = new_date raw.fetched_at;
    fetch_error = nn raw.fetch_error;
  }

  unfoldable pub map_detail : RawItemDetail → LibraryItemDetail
  map_detail raw = record { item = map_item raw.item; content = map_content raw.content }

  unfoldable pub map_list_page : RawListPage → ListPage
  map_list_page raw = record { items = map map_item raw.items; total = raw.total }
