-- ===== src/Radar/RadarKeys.antt =====
-- `radarKeys` of web/src/features/radar/use-radar.tsx, and `adminKeys` of
-- web/src/features/admin/use-admin-feeds.tsx
use linktheca.Prelude.{ℕ, String, [], ◌∷◌}
use linktheca.Cache.Keys.{Key, text, number, match_filters}
use linktheca.Radar.Types.{MatchFilters}

abbrev pub all : Key
all = text "radar" ∷ []

abbrev pub topics : Key
topics = text "radar" ∷ text "topics" ∷ []

abbrev pub topic : ℕ → Key
topic id = text "radar" ∷ text "topic" ∷ number id ∷ []

-- The common beginning of the keys of all match lists.
abbrev pub all_matches : Key
all_matches = text "radar" ∷ text "matches" ∷ []

abbrev pub matches : MatchFilters → Key
matches filters = text "radar" ∷ text "matches" ∷ match_filters filters ∷ []

abbrev pub match : ℕ → Key
match id = text "radar" ∷ text "match" ∷ number id ∷ []

abbrev pub status : Key
status = text "radar" ∷ text "status" ∷ []

abbrev pub feeds : Key
feeds = text "radar" ∷ text "feeds" ∷ []

abbrev topic_preview : String → String → Key
topic_preview name description =
    text "radar" ∷ text "topic-preview" ∷ text name ∷ text description ∷ []

abbrev pub admin_feeds : Key
admin_feeds = text "admin" ∷ text "feeds" ∷ []
