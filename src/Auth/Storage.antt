-- ===== src/Auth/Storage.antt =====
-- web/src/features/auth/storage.ts: the refresh token in `localStorage`, under one key.
use linktheca.Prelude.{String, Bool, Option, none, some, if◌then◌else◌}

-- A browser in private mode may refuse every access to the storage: the calls then throw.
pub record Storage : Type 0 where
  pub disabled : Bool
  pub item : Option String

unfoldable pub read_refresh_token : Storage → Option String
read_refresh_token s = if s.disabled then none else s.item

unfoldable pub write_refresh_token : String → Storage → Storage
write_refresh_token token s = if s.disabled then s else record s { item = some token }

unfoldable pub clear_refresh_token : Storage → Storage
clear_refresh_token s = if s.disabled then s else record s { item = none }
