-- ===== src/Shell/Chrome.antt =====
-- The frame around the signed-in pages: Sidebar.tsx, MobileDrawer.tsx, Topbar.tsx and AppShell.tsx of
-- web/src/shared/layout, UserMenu.tsx of web/src/features/auth/components, and AccountSection.tsx and
-- AboutSection.tsx of web/src/features/settings/components.
use linktheca.Prelude.{
  ℕ, suc, ◌+◌, String, Bool, true, false, Option, none, some, List, [], ◌∷◌, ◌++◌, append, ltb,
  if◌then◌else◌,
}
use linktheca.Web.Date.{Date}
use linktheca.Web.Number.{to_string}
use linktheca.Web.View.{View, heading, text, link, button}
use linktheca.Web.Query.{Query, is_loading, is_success, has_code}
use linktheca.Auth.Store.{User, AuthState}
use linktheca.Radar.Types.{RadarStatus}
use linktheca.Shell.{NavItem, nav_items}

pub data Click : Type 0 where
  open_navigation open_add_link sign_out : Click

-- `String(i + 1).padStart(2, "0")`
abbrev pad : ℕ → String
pad n = if ltb n 10 then append "0" (to_string n) else to_string n

-- The items are numbered by their position.
abbrev numbered : ℕ → List NavItem → View Click
numbered i [] = []
numbered i (item ∷ items) = text (pad (i + 1)) ∷ link item.to item.label ∷ numbered (suc i) items

unfoldable pub sidebar : String → AuthState → View Click
sidebar app_version s =
    heading "Linktheca"
    ∷ text "A private archive"
    ∷ (numbered 0 (nav_items s) ++ text (append "v" (append app_version " · self-hosted")) ∷ [])

-- The first letter is taken, and made large, by the given function.
unfoldable user_menu : (String → String) → Option User → View Click
user_menu initial none = []
user_menu initial (some user) =
    text (initial user.display_name)
    ∷ text user.display_name
    ∷ text user.email
    ∷ button "Sign out" false sign_out
    ∷ []

unfoldable topbar : (String → String) → Option User → View Click
unfolding user_menu
topbar initial user =
    button "Open navigation" false open_navigation
    ∷ button "Add link" false open_add_link
    ∷ user_menu initial user

-- `drawerOpen` of AppShell.tsx: the button opens the drawer; a link in it, or `onOpenChange`, closes it.
pub data DrawerEvent : Type 0 where
  menu_clicked link_clicked : DrawerEvent
  open_changed : Bool → DrawerEvent

unfoldable pub drawer : DrawerEvent → Bool → Bool
drawer menu_clicked is_open = true
drawer link_clicked is_open = false
drawer (open_changed o) is_open = o

unfoldable mobile_drawer : String → AuthState → Bool → View Click
unfolding sidebar
mobile_drawer app_version s is_open =
    if is_open then heading "Navigation" ∷ sidebar app_version s else []

-- AppShell.tsx, around a page. The sidebar stands beside it on a wide screen only.
unfoldable app_shell : String → (String → String) → AuthState → Bool → View Click → View Click
unfolding sidebar mobile_drawer topbar
app_shell app_version initial s drawer_open children =
    sidebar app_version s
    ++ (mobile_drawer app_version s drawer_open ++ (topbar initial s.user ++ children))

-- AccountSection.tsx
unfoldable account_section : (String → String) → Option User → View Click
account_section initial none = []
account_section initial (some user) =
    heading "Account"
    ∷ text "Who you are to this instance."
    ∷ text (initial user.display_name)
    ∷ text user.display_name
    ∷ text "Email"
    ∷ text user.email
    ∷ text "Role"
    ∷ text (if user.is_admin then "Administrator" else "Member")
    ∷ []

-- AboutSection.tsx. `none` is a read of the data of a query that has none.
abbrev last_sweep : (Option Date → String) → Option RadarStatus → Option String
last_sweep fmt_sweep none = none
last_sweep fmt_sweep (some st) = some (fmt_sweep st.last_sweep_at)

unfoldable radar_status_label : (Option Date → String) → Query RadarStatus → Option String
radar_status_label fmt_sweep q =
    if is_loading q
    then some "Checking…"
    else if is_success q
    then last_sweep fmt_sweep q.found
    else if has_code "radar_disabled" q.failure
    then some "Disabled"
    else some "Unavailable"

unfoldable about_section : String → String → View Click
about_section app_version radar =
    heading "About"
    ∷ text "This instance."
    ∷ text "Version"
    ∷ text (append "v" app_version)
    ∷ text "Mode"
    ∷ text "self-hosted"
    ∷ text "Radar"
    ∷ text radar
    ∷ []
