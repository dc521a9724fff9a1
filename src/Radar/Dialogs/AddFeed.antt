-- ===== src/Radar/Dialogs/AddFeed.antt =====
-- web/src/features/radar/components/AddFeedDialog.tsx
use linktheca.Prelude.{
  ℕ, String, Bool, false, Option, none, some, List, [], ◌∷◌, ◌++◌, if◌then◌else◌,
}
use linktheca.Web.View.{View, Click, text, field, alert_of, labelled, footer, dialog_content}
use linktheca.Web.Dialog.{Handlers, Mounted}
use linktheca.Radar.Dialogs.{submit_global_feed, submit_personal_feed}

abbrev interval_options : List (ℕ × String)
interval_options =
    (1800, "every 30m")
    ∷ (3600, "every 1h")
    ∷ (10800, "every 3h")
    ∷ (21600, "every 6h")
    ∷ (43200, "every 12h")
    ∷ (86400, "every 24h")
    ∷ []

abbrev pub labels : List (ℕ × String) → View Click
labels [] = []
labels ((n, s) ∷ os) = text s ∷ labels os

-- The `<select>` with its label
abbrev pub interval_select : String → Bool → View Click
interval_select id is_pending = text "Check" ∷ field id false is_pending ∷ labels interval_options

pub data Scope : Type 0 where
  personal global : Scope

pub record Values : Type 0 where
  pub url : String
  pub fetch_interval_seconds : ℕ

unfoldable pub errors : (String → Bool) → Values → List (String × String)
errors is_url v = if is_url v.url then [] else ("url", "Enter a valid http(s) URL") ∷ []

abbrev pub defaults : Values
defaults = record { url = ""; fetch_interval_seconds = 3600 }

-- In the scope "personal" the answer says whether the feed is new.
unfoldable pub personal_handlers : (String → Bool) → Handlers (Unit {0}) Values Values Bool
personal_handlers is_url = record {
  defaults = λ _. defaults;
  field_errors = errors is_url;
  request = λ _ v. some v;
  conclude = submit_personal_feed;
}

unfoldable pub global_handlers : (String → Bool) → Handlers (Unit {0}) Values Values (Unit {0})
global_handlers is_url = record {
  defaults = λ _. defaults;
  field_errors = errors is_url;
  request = λ _ v. some v;
  conclude = submit_global_feed;
}

abbrev pub label : Scope → String
label Scope.global = "Add feed"
label Scope.personal = "Add source"

abbrev pub description : Scope → String
description Scope.global = "Everyone on this instance can subscribe to it."
description Scope.personal = "Only you will see it."

unfoldable pub form : Scope → Mounted (Unit {0}) Values → View Click
form scope f =
    alert_of f.top_error
    ++ (labelled "Feed URL" "add-feed-url" "url" f.errors f.is_pending
        ++ (interval_select "add-feed-interval" f.is_pending
            ++ footer f.is_pending (if f.is_pending then "Adding…" else label scope)))

unfoldable pub view : Scope → Option (Mounted (Unit {0}) Values) → View Click
unfolding form dialog_content
view scope none = []
view scope (some f) = dialog_content (label scope) (description scope) (form scope f)
