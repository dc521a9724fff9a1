-- ===== src/Library/Actions/Toggles.antt =====
-- What two clicks on one button of an item do.
use linktheca.Prelude.{◌≡◌, refl, Bool, true, false, if◌then◌else◌}
use linktheca.Library.Types.{LibraryState, unread, archived, LibraryItem}
use linktheca.Library.Mutations.{apply_patch}
use linktheca.Library.Actions.{toggle_read, toggle_archive, toggle_favorite, is_archived}

abbrev read_clicked : LibraryItem → LibraryItem
read_clicked it = apply_patch it (toggle_read it).0.input

abbrev archive_clicked : LibraryItem → LibraryItem
archive_clicked it = apply_patch it (toggle_archive it).input

abbrev favorite_clicked : LibraryItem → LibraryItem
favorite_clicked it = apply_patch it (toggle_favorite it).input

favorite_twice :
    (it : LibraryItem) (b : Bool)
    → favorite_clicked (favorite_clicked (record it { is_favorite = b }))
      ≡ record it { is_favorite = b }
unfolding toggle_favorite apply_patch
favorite_twice it true = refl
favorite_twice it false = refl

-- The two clicks on an item in the state `s`.
states_twice :
    (it : LibraryItem) (s : LibraryState)
    → (read_clicked (read_clicked (record it { state = s }))
        ≡ record it { state = if is_archived (record it { state = s }) then unread else s })
      × (archive_clicked (archive_clicked (record it { state = s })) ≡ record it {
        state = if is_archived (record it { state = s }) then archived else unread;
      })
unfolding toggle_read toggle_archive apply_patch
states_twice it LibraryState.unread = (refl, refl)
states_twice it LibraryState.read = (refl, refl)
states_twice it LibraryState.archived = (refl, refl)

-- Two clicks on the favorite mark leave an article as it was; two on the read mark too, unless it
-- was archived, when it ends as unread; two on the archive mark leave an archived article archived
-- and any other unread.
clicked_twice :
    (it : LibraryItem)
    → (favorite_clicked (favorite_clicked it) ≡ it)
      × (read_clicked (read_clicked it)
          ≡ record it { state = if is_archived it then unread else it.state })
      × (archive_clicked (archive_clicked it)
          ≡ record it { state = if is_archived it then archived else unread })
clicked_twice it =
    (favorite_twice it it.is_favorite, (states_twice it it.state).0, (states_twice it it.state).1)
