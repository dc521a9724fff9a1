-- ===== src/Library/LibraryKeys.antt =====
-- `libraryKeys` of web/src/features/library/use-library.tsx
use linktheca.Prelude.{ℕ, [], ◌∷◌}
use linktheca.Cache.Keys.{Key, text, number, filters}
use linktheca.Library.Types.{FilterParams}

abbrev pub all : Key
all = text "library" ∷ []

abbrev pub lists : Key
lists = text "library" ∷ text "list" ∷ []

abbrev pub list : FilterParams → Key
list f = text "library" ∷ text "list" ∷ filters f ∷ []

abbrev pub item : ℕ → Key
item id = text "library" ∷ text "item" ∷ number id ∷ []

abbrev pub detail : ℕ → Key
detail id = text "library" ∷ text "detail" ∷ number id ∷ []
