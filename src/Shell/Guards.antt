-- ===== src/Shell/Guards.antt =====
-- The guards and the sidebar of web/src/shared/layout, compared.
use linktheca.Prelude.{
  String, ◌≡◌, ◌≢◌, ◌↔◌, refl, sym, subst, Bool, true, Option, none, some, any, arith, ◌==◌,
  string_eq,
}
use linktheca.Web.Location.{Location}
use linktheca.Auth.Store.{AuthState, User, AuthStatus, bootstrapping, authed, anonymous}
use linktheca.Auth.Consistency.{IsConsistent, signed_in, signed_out}
use linktheca.Shell.{is_admin, outlet, protected_route, admin_route, nav_items}

-- The sidebar has the link to the administrator's page.
abbrev pub has_admin_link : AuthState → Bool
has_admin_link s = any (λ i. i.to == "/admin/sources") (nav_items s)

-- What is to show of the state, field by field.
abbrev Agree : Option String → Option User → AuthStatus → Location → Type 0
Agree token user status location =
    let s : AuthState = record { access_token = token; user = user; status = status } in
    ((has_admin_link s ≡ true) ↔ (admin_route s location ≡ outlet))
    × ((admin_route s location ≡ outlet)
        ↔ ((protected_route s location ≡ outlet) × (is_admin s.user ≡ true)))

when_authed :
    (token : Option String) (user : Option User) (location : Location)
    → Agree token user authed location
unfolding protected_route admin_route nav_items
when_authed token user location = ground arith

otherwise :
    (token : Option String) (status : AuthStatus) (location : Location)
    → status ≢ authed
    → Agree token none status location
unfolding protected_route admin_route nav_items
otherwise token bootstrapping location n = ground arith
otherwise token anonymous location n = ground arith
otherwise token authed location n = absurd (n refl)

-- With a consistent session store, the sidebar has the link to the administration exactly if the
-- guard of that page shows it, which it does exactly for an administrator whom the guard of the
-- signed-in pages lets through.
pub guards_agree :
    (s : AuthState) (location : Location)
    → IsConsistent s
    → ((has_admin_link s ≡ true) ↔ (admin_route s location ≡ outlet))
      × ((admin_route s location ≡ outlet)
          ↔ ((protected_route s location ≡ outlet) × (is_admin s.user ≡ true)))
guards_agree s location (signed_in token user e) =
    rw e (when_authed (some token) (some user) location)
guards_agree s location (signed_out t u n) =
    subst (λ user. Agree s.access_token user s.status location) (sym u)
      (otherwise s.access_token s.status location n)
