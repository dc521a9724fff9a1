-- ===== src/Shell/Routes/Landing.antt =====
-- Where the redirects of web/src/App.tsx end.
use linktheca.Prelude.{
  ℕ, zero, suc, String, ◌≡◌, ap, ◌∙◌, Bool, true, false, Option, none, some, List, [], ◌∷◌, arith,
  Bool-cases, inl, inr,
}
use linktheca.Web.Location.{Location, at}
use linktheca.Auth.Store.{AuthState, User, AuthStatus, bootstrapping, authed, anonymous}
use linktheca.Shell.{is_admin, protected_route, admin_route}
use linktheca.Shell.Routes.{
  login, library_list, admin_sources, Element, page, layout, protected, admin, router, Branch,
  branches, Shown, shows, redirect, spinner, nothing, render,
}

abbrev is_redirect : Shown → Bool
is_redirect (redirect to from) = true
is_redirect (shows p) = false
is_redirect spinner = false
is_redirect nothing = false

-- `pick` stands for the choice of a branch by the package `react-router`.
module _ (pick : String → List Element) where
  -- What is shown after at most so many redirects.
  abbrev pub follow : ℕ → AuthState → Shown → Shown
  follow zero s v = v
  follow (suc n) s (redirect to from) = follow n s (render s (at to) (pick to))
  follow (suc n) s (shows p) = shows p
  follow (suc n) s spinner = spinner
  follow (suc n) s nothing = nothing

  abbrev pub Lands : ℕ → AuthState → Location → List Branch → Type 0
  Lands n s location [] = Unit
  Lands n s location ((es, path) ∷ bs) =
      (is_redirect (follow n s (render s location es)) ≡ false) × Lands n s location bs

  -- The three addresses that the client redirects to lead to their own routes.
  pub record PicksTargets : Type 0 where
    pub login_branch : pick "/login" ≡ layout ∷ layout ∷ page login ∷ []
    pub library_branch : pick "/library" ≡ layout ∷ protected ∷ layout ∷ page library_list ∷ []
    pub admin_branch :
        pick "/admin/sources" ≡ layout ∷ protected ∷ layout ∷ admin ∷ page admin_sources ∷ []

  state : Option String → Option User → AuthStatus → AuthState
  state token user status = record { access_token = token; user = user; status = status }

  -- One more redirect, to a target with a known branch.
  follow_step :
      (n : ℕ) (s : AuthState) (to : String) (from : Option Location) (es : List Element)
      → pick to ≡ es
      → is_redirect (follow (suc n) s (redirect to from))
        ≡ is_redirect (follow n s (render s (at to) es))
  follow_step n s to from es e = ap (λ fs. is_redirect (follow n s (render s (at to) fs))) e

  login_ends :
      (n : ℕ) (s : AuthState) (from : Option Location)
      → PicksTargets
      → is_redirect (follow (suc n) s (redirect "/login" from)) ≡ false
  unfolding render
  login_ends zero s from p = follow_step zero s "/login" from _ p.login_branch
  login_ends (suc n) s from p = follow_step (suc n) s "/login" from _ p.login_branch

  library_ends :
      (token : Option String) (user : Option User) (status : AuthStatus) (from : Option Location)
      → PicksTargets
      → is_redirect (follow 2 (state token user status) (redirect "/library" from)) ≡ false
  unfolding render protected_route state
  library_ends token user bootstrapping from p =
      follow_step 1 (state token user bootstrapping) "/library" from _ p.library_branch
  library_ends token user anonymous from p =
      follow_step 1 (state token user anonymous) "/library" from _ p.library_branch
      ∙ login_ends 0 (state token user anonymous) (some (at "/library")) p
  library_ends token user authed from p =
      follow_step 1 (state token user authed) "/library" from _ p.library_branch

  admin_ends :
      (token : Option String) (user : Option User) (from : Option Location)
      → PicksTargets
      → is_admin user ≡ true
      → is_redirect (follow 2 (state token user authed) (redirect "/admin/sources" from)) ≡ false
  unfolding render protected_route admin_route state
  admin_ends token user from p e =
      follow_step 1 (state token user authed) "/admin/sources" from _ p.admin_branch ∙ rw e

  by_status :
      (token : Option String) (user : Option User) (status : AuthStatus) (location : Location)
      → PicksTargets
      → Lands 2 (state token user status) location (branches router)
  unfolding render protected_route admin_route state
  by_status token user bootstrapping location p =
      ground (arith, library_ends token user bootstrapping none p)
  by_status token user anonymous location p = ground (
    arith,
    library_ends token user anonymous none p,
    login_ends 1 (state token user anonymous) (some location) p,
  )
  by_status token user authed location p = elim (Bool-cases (is_admin user)) [
    | inl e ↦ ground (arith, library_ends token user authed none p, admin_ends token user none p e)
    | inr e ↦ ground (arith, library_ends token user authed none p)
  ]

  -- If the addresses of sign-in, of the library and of the shared feeds are led to their own
  -- branches, then whatever branch is rendered, at most two redirects follow: what is shown then is
  -- no redirect.
  pub redirects_end :
      (s : AuthState) (location : Location) → PicksTargets → Lands 2 s location (branches router)
  unfolding state
  redirects_end s location p = by_status s.access_token s.user s.status location p
