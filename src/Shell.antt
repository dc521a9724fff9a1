-- ===== src/Shell.antt =====
-- web/src/shared/layout: which pages a visitor gets to see, and the links of the sidebar.
pub mod Guards
pub mod Routes
pub mod Offline
pub mod Chrome
use linktheca.Prelude.{
  String, Bool, true, false, Option, none, some, List, [], ◌∷◌, ◌++◌, if◌then◌else◌,
}
use linktheca.Web.Location.{Location}
use linktheca.Auth.Store.{User, AuthState, bootstrapping, authed, anonymous}

-- What a guard renders: the spinner, a redirect with the location to come back to, or the page.
pub data View : Type 0 where
  full_page_spinner outlet : View
  navigate : String → Option Location → View

-- `s.user?.isAdmin ?? false`
abbrev pub is_admin : Option User → Bool
is_admin none = false
is_admin (some user) = user.is_admin

-- ProtectedRoute.tsx
unfoldable pub protected_route : AuthState → Location → View
protected_route s location = elim s.status [
  | bootstrapping ↦ full_page_spinner
  | anonymous ↦ navigate "/login" (some location)
  | authed ↦ outlet
]

-- AdminRoute.tsx
unfoldable pub admin_route : AuthState → Location → View
admin_route s location = elim s.status [
  | bootstrapping ↦ full_page_spinner
  | anonymous ↦ navigate "/login" (some location)
  | authed ↦ if is_admin s.user then outlet else navigate "/library" none
]

pub record NavItem : Type 0 where
  pub to : String
  pub label : String

abbrev base_nav_items : List NavItem
base_nav_items =
    record { to = "/library"; label = "Library" }
    ∷ record { to = "/radar"; label = "Radar" }
    ∷ record { to = "/settings"; label = "Settings" }
    ∷ []

abbrev admin_nav_item : NavItem
admin_nav_item = record { to = "/admin/sources"; label = "Admin" }

-- Sidebar.tsx
unfoldable pub nav_items : AuthState → List NavItem
nav_items s = if is_admin s.user then base_nav_items ++ admin_nav_item ∷ [] else base_nav_items
