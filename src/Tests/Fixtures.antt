-- ===== src/Tests/Fixtures.antt =====
-- A server that plays back a list of replies, and worlds to start from.
use linktheca.Prelude.{ℕ, zero, suc, String, true, false, Option, none, some, List, [], ◌∷◌, length}
use linktheca.Web.Json.{Json, obj, field, nil, str}
use linktheca.Web.Json
use linktheca.Web.Http.{Response, Reply, failed, response, Host}
use linktheca.Web.App.{World}
use linktheca.Auth.Store.{User, authed, initial}
use linktheca.Auth.Schemas.{RawUser, AuthResponse}
use linktheca.Web.Date.{Date}
use linktheca.Web.Json.{Decimal}
use linktheca.Web.Schema.{Schema, Platform}
use linktheca.Library.Types.{LibraryItem, LibraryState}
use linktheca.Library.Requests.{Schemas as LibrarySchemas}
use linktheca.Radar.Types.{TopicWithStats, FeedListItem, MatchFinding}
use linktheca.Radar.Requests.{Schemas as RadarSchemas}

abbrev play : List Reply → ℕ → Reply
play [] n = failed
play (r ∷ rs) zero = r
play (r ∷ rs) (suc n) = play rs n

abbrev raw_ann : RawUser
raw_ann = record {
  id = 7;
  email = "ann@example.org";
  display_name = "Ann";
  is_admin = false;
  created_at = "";
  updated_at = "";
}

abbrev pub pair : String → String → AuthResponse
pair access refresh = record {
  user = raw_ann;
  tokens = record { access_token = access; refresh_token = refresh };
}

abbrev pub both : Option String → Option String → Option AuthResponse
both (some a) (some r) = some (pair a r)
both _ _ = none

abbrev pub host : List Reply → Host
host replies = record {
  server = λ sent req. play replies (length sent);
  parse_auth_response =
      λ body. both (Json.text (Json.get "access" body)) (Json.text (Json.get "refresh" body));
  parse_raw_user = λ body. some raw_ann;
  includes = λ s t. true;
}

abbrev pub tokens : String → String → Json
tokens access refresh = obj (field "access" (str access) (field "refresh" (str refresh) nil))

abbrev pub reply : ℕ → Option Json → Response
reply status json = record {
  status = status;
  status_text = "";
  content_type = some "application/json";
  json = json;
}

abbrev pub ann : User
ann = record { id = 7; email = "ann@example.org"; display_name = "Ann"; is_admin = false }

abbrev pub fresh : Option String → World
fresh token = record {
  storage = record { disabled = false; item = token };
  auth = initial;
  sent = [];
  effects = [];
}

abbrev pub signed_in : World
signed_in = record (fresh (some "old")) {
  auth = record { access_token = some "a0"; user = some ann; status = authed };
}

-- 401 to the first request, new tokens to the refresh, and then the last answer.
abbrev pub renewing : Response → Host
renewing last = host (
    response (reply 401 none)
    ∷ response (reply 200 (some (tokens "a1" "new")))
    ∷ response last
    ∷ [])

abbrev day : Date
day = record { time = some 0 }

abbrev pub article : LibraryItem
article = record {
  id = 3;
  state = LibraryState.unread;
  is_favorite = false;
  note = none;
  saved_at = day;
  read_at = none;
  url = "https://example.org/3";
  title = some "Three";
  excerpt = none;
  reading_time_seconds = some 90;
  image = none;
}

abbrev pub decimal : ℕ → ℕ → Decimal
decimal n s = record { negative = false; digits = n; scale = s }

abbrev pub topic_4 : TopicWithStats
topic_4 = record {
  topic = record {
    id = 4;
    user_id = 7;
    name = "Proofs";
    description = "Machine-checked proofs";
    match_threshold = decimal 5 1;
    is_active = true;
    has_embedding = true;
    created_at = day;
    updated_at = day;
  };
  stats = record { new_count = 0; total_count = 2; source_count = 1; last_match_at = none };
}

abbrev pub feed_5 : FeedListItem
feed_5 = record {
  id = 5;
  url = "https://example.org/rss";
  kind = "rss";
  title = none;
  fetch_interval_seconds = 3600;
  is_active = true;
  last_fetched_at = none;
  last_error = none;
  created_at = day;
  subscribed = true;
  finding_count = 2;
  is_own = true;
}

abbrev pub finding : MatchFinding
finding = record {
  id = 8;
  feed_id = 5;
  feed_title = none;
  url = "https://example.org/8";
  title = none;
  summary = none;
  published_at = none;
  discovered_at = day;
}

abbrev pub platform : Platform
platform = record { dev = true; new_date = λ s. day; encode = λ p. "" }

-- A schema that accepts nothing.
abbrev rejecting : {A : Type 0} → Schema A
rejecting = record { parse = λ raw. none; cast = λ raw. none }

abbrev pub library_schemas : LibrarySchemas
library_schemas = record {
  raw_item = rejecting;
  raw_item_detail = rejecting;
  raw_list_page = rejecting;
}

abbrev pub radar_schemas : RadarSchemas
radar_schemas = record {
  raw_topics_list = rejecting;
  raw_topic = rejecting;
  raw_topic_with_stats = rejecting;
  raw_match_list = rejecting;
  raw_match_view = rejecting;
  raw_radar_status = rejecting;
  raw_topic_preview = rejecting;
  raw_feed_list = rejecting;
  raw_add_feed_result = rejecting;
}
