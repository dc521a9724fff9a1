-- ===== src/Shell/Routes/Access.antt =====
-- Who sees which page of web/src/App.tsx.
use linktheca.Prelude.{
  String, ◌≡◌, Bool, true, false, ◌&&◌, Option, none, some, List, [], ◌∷◌, arith,
}
use linktheca.Web.Location.{Location}
use linktheca.Auth.Store.{AuthState, User, AuthStatus, bootstrapping, authed, anonymous}
use linktheca.Shell.{is_admin, protected_route, admin_route}
use linktheca.Shell.Routes.{
  Page, login, register, library_list, library_item, inbox, topics_list, sources, topic, match,
  settings, admin_sources, not_found, Element, page, navigate_to, layout, protected, admin, router,
  Branch, branches, Shown, shows, redirect, spinner, nothing, render,
}

-- Who is meant to see a page.
pub data Access : Type 0 where
  everyone signed_in administrator : Access

abbrev pub access : Page → Access
access login = everyone
access register = everyone
access not_found = everyone
access admin_sources = administrator
access library_list = signed_in
access library_item = signed_in
access inbox = signed_in
access topics_list = signed_in
access sources = signed_in
access topic = signed_in
access match = signed_in
access settings = signed_in

abbrev is_authed : AuthStatus → Bool
is_authed authed = true
is_authed bootstrapping = false
is_authed anonymous = false

abbrev may_see : AuthState → Access → Bool
may_see s everyone = true
may_see s signed_in = is_authed s.status
may_see s administrator = is_authed s.status && is_admin s.user

abbrev is_shown : Shown → Bool
is_shown (shows p) = true
is_shown spinner = false
is_shown nothing = false
is_shown (redirect to from) = false

-- The pages at the ends of the branches, and whether each is rendered, and meant to be.
abbrev pub page_of : List Element → Option Page
page_of [] = none
page_of (page p ∷ es) = some p
page_of (navigate_to to ∷ es) = page_of es
page_of (layout ∷ es) = page_of es
page_of (protected ∷ es) = page_of es
page_of (admin ∷ es) = page_of es

abbrev pub Guarded : AuthState → Location → List Branch → Type 0
Guarded s location [] = Unit
Guarded s location ((es, path) ∷ bs) =
    (is_shown (render s location es)
      ≡ (elim (page_of es) [ none ↦ false | some p ↦ may_see s (access p) ]))
    × Guarded s location bs

by_status :
    (token : Option String) (user : Option User) (status : AuthStatus) (location : Location)
    → Guarded
        (record { access_token = token; user = user; status = status })
        location
        (branches router)
unfolding render protected_route admin_route
by_status token user bootstrapping location = ground arith
by_status token user anonymous location = ground arith
by_status token user authed location = ground arith

-- At every address and in every state of the session store, each branch of the table of routes that
-- ends in a page shows it exactly to those who are meant to see it: the pages of sign-in,
-- registration and the unknown address everyone, the administration who is signed in as an
-- administrator, and every other page who is signed in; a branch that ends in a redirect shows
-- none.
pub router-Guarded : (s : AuthState) (location : Location) → Guarded s location (branches router)
router-Guarded s location = by_status s.access_token s.user s.status location
