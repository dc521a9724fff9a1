-- ===== src/Library/Requests.antt =====
-- web/src/features/library/api.ts: the requests of the library.
pub mod Contents
use linktheca.Prelude.{ℕ, String, Bool, true, false, Option, none, some, [], append}
use linktheca.Web.Json.{Json, null, bool, str, obj, Fields, field, nil}
use linktheca.Web.Http.{Host, RequestInit, no_headers, no_init}
use linktheca.Web.App.{App, pure, ◌>>=◌}
use linktheca.Web.Number.{to_string}
use linktheca.Web.SearchParams.{SearchParams, set}
use linktheca.Web.Schema.{Schema, Platform, parse_in_dev}
use linktheca.Api.Client.{api_fetch}
use linktheca.Library.Types.{
  LibraryState, unread, read, archived, LibraryItem, LibraryItemDetail, ListPage,
}
use linktheca.Library.Schemas.{
  RawItem, RawItemDetail, RawListPage, map_item, map_detail, map_list_page,
}

pub record UpdateInput : Type 0 where
  pub state : Option LibraryState
  pub is_favorite : Option Bool
  pub note : Option (Option String)

abbrev pub state_name : LibraryState → String
state_name unread = "unread"
state_name read = "read"
state_name archived = "archived"

abbrev state_field : Option LibraryState → Fields → Fields
state_field none fs = fs
state_field (some s) fs = field "state" (str (state_name s)) fs

abbrev favorite_field : Option Bool → Fields → Fields
favorite_field none fs = fs
favorite_field (some b) fs = field "is_favorite" (bool b) fs

abbrev pub note_json : Option String → Json
note_json none = null
note_json (some s) = str s

abbrev note_field : Option (Option String) → Fields → Fields
note_field none fs = fs
note_field (some n) fs = field "note" (note_json n) fs

-- The body of a PATCH: only the fields that are to change.
unfoldable pub update_body : UpdateInput → Json
update_body input =
    obj (state_field input.state (favorite_field input.is_favorite (note_field input.note nil)))

pub record ListArgs : Type 0 where
  pub limit : ℕ
  pub offset : ℕ
  pub state : Option LibraryState
  pub favorite : Option Bool

abbrev pub bool_name : Bool → String
bool_name true = "true"
bool_name false = "false"

abbrev pub set_state : Option LibraryState → SearchParams → SearchParams
set_state none p = p
set_state (some s) p = set p "state" (state_name s)

abbrev pub set_favorite : Option Bool → SearchParams → SearchParams
set_favorite none p = p
set_favorite (some b) p = set p "favorite" (bool_name b)

unfoldable pub build_query : ListArgs → SearchParams
build_query args =
    let p = set [] "limit" (to_string args.limit) in
    let p = set p "offset" (to_string args.offset) in
    set_favorite args.favorite (set_state args.state p)

pub record Schemas : Type 0 where
  pub raw_item : Schema RawItem
  pub raw_item_detail : Schema RawItemDetail
  pub raw_list_page : Schema RawListPage

abbrev pub method : String → Option Json → RequestInit
method name body = record { method = some name; headers = no_headers; body = body }

-- `/library/${id}`
unfoldable pub item_path : ℕ → String
item_path id = append "/library/" (to_string id)

module _ (h : Host) (platform : Platform) (schemas : Schemas) where
  unfoldable pub list_library : ListArgs → App ListPage
  list_library args = do
    raw ← api_fetch h (append "/library?" (platform.encode (build_query args))) no_init
    parsed ← parse_in_dev platform schemas.raw_list_page raw
    pure (map_list_page platform.new_date parsed)

  unfoldable pub get_library_item : ℕ → App LibraryItem
  get_library_item id = do
    raw ← api_fetch h (item_path id) no_init
    parsed ← parse_in_dev platform schemas.raw_item raw
    pure (map_item platform.new_date parsed)

  unfoldable pub get_library_detail : ℕ → App LibraryItemDetail
  get_library_detail id = do
    raw ← api_fetch h (append (item_path id) "/content") no_init
    parsed ← parse_in_dev platform schemas.raw_item_detail raw
    pure (map_detail platform.new_date parsed)

  unfoldable pub save_link : String → App LibraryItem
  save_link url = do
    raw ← api_fetch h "/library" (method "POST" (some (obj (field "url" (str url) nil))))
    parsed ← parse_in_dev platform schemas.raw_item raw
    pure (map_item platform.new_date parsed)

  unfoldable pub update_item : ℕ → UpdateInput → App LibraryItem
  update_item id input = do
    raw ← api_fetch h (item_path id) (method "PATCH" (some (update_body input)))
    parsed ← parse_in_dev platform schemas.raw_item raw
    pure (map_item platform.new_date parsed)

  unfoldable pub delete_item : ℕ → App (Unit {0})
  delete_item id = do _ ← api_fetch h (item_path id) (method "DELETE" none); pure tt
