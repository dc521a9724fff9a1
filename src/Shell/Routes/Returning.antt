-- ===== src/Shell/Routes/Returning.antt =====
-- The way of a visitor who is not signed in: the page that was asked for, the redirect of a guard of
-- web/src/shared/layout, the form of web/src/features/auth/components/LoginForm.tsx, and
-- web/src/routes/login.tsx, which leads back.
use linktheca.Prelude.{
  String, ◌≡◌, ◌≢◌, ◌⊎◌, inl, inr, refl, sym, subst, true, Option, none, some, List, [], ◌∷◌, arith,
  if◌then◌else◌,
}
use linktheca.Web.Json.{Json}
use linktheca.Web.Http.{Host, Response, response, is_ok}
use linktheca.Web.Location.{Location, at}
use linktheca.Web.App.{World, app, navigate}
use linktheca.Web.Form.{succeeded}
use linktheca.Auth.Store.{AuthState, User, anonymous, set_session}
use linktheca.Auth.Schemas.{AuthResponse, map_user}
use linktheca.Auth.Session.{LoginInput, login_init}
use linktheca.Auth.Session.SignIn.{login_accepted}
use linktheca.Auth.Forms.Pages.{login_success}
use linktheca.Auth.Forms.{after_login, submit_login}
use linktheca.Api.Client.{request, install}
use linktheca.Shell.{is_admin, protected_route, admin_route}
use linktheca.Shell.Routes.{Page, Element, router, Branch, branches, Shown, shows, redirect, render}
use linktheca.Shell.Routes.Access.{Access, everyone, signed_in, administrator, access, page_of}

-- `location.state.from` at the page that a redirect leads to.
abbrev from_of : Shown → Option Location
from_of (redirect to from) = from
from_of _ = none

-- The branches of the table of routes have these elements.
abbrev IsBranch : List Element → List Branch → Type 0
IsBranch es [] = ⊥
IsBranch es (b ∷ bs) = (es ≡ b.0) ⊎ IsBranch es bs

module _ (location : Location) (before after : AuthState) where
  -- What one branch shows before the sign-in, and after it at the same path.
  abbrev Reaches : Page → Access → List Element → Type 0
  Reaches p everyone es = render before location es ≡ shows p
  Reaches p signed_in es =
      (render before location es ≡ redirect "/login" (some location))
      × (render after (at location.pathname) es ≡ shows p)
  Reaches p administrator es =
      (render before location es ≡ redirect "/login" (some location))
      × (render after (at location.pathname) es
          ≡ (if is_admin after.user then shows p else redirect "/library" none))

  abbrev EndReaches : Option Page → List Element → Type 0
  EndReaches none es = Unit
  EndReaches (some p) es = Reaches p (access p) es

  abbrev BranchReaches : List Element → Type 0
  BranchReaches es = EndReaches (page_of es) es

  abbrev AllReach : List Branch → Type 0
  AllReach [] = Unit
  AllReach ((es, path) ∷ bs) = BranchReaches es × AllReach bs

  branch_reached :
      (es : List Element) (bs : List Branch) → AllReach bs → IsBranch es bs → BranchReaches es
  branch_reached es [] a m = absurd m
  branch_reached es ((fs, path) ∷ bs) (r, a) (inl e) = subst BranchReaches (sym e) r
  branch_reached es ((fs, path) ∷ bs) (r, a) (inr m) = branch_reached es bs a m

  -- `pick` stands for the choice of a branch by the package `react-router`.
  module _ (pick : String → List Element) where
    -- What is shown for the location, and where the sign-in leads to from there.
    abbrev asked : Shown
    asked = render before location (pick location.pathname)

    abbrev shown_after : Shown
    shown_after = let to = after_login (from_of asked) in render after (at to) (pick to)

    abbrev ReturnsTo : Shown → Type 0
    ReturnsTo v =
        (asked ≡ redirect "/login" (some location))
        × (login_success (from_of asked) ≡ navigate location.pathname true)
        × (shown_after ≡ v)

    abbrev PageReturns : Page → Access → Type 0
    PageReturns p everyone = asked ≡ shows p
    PageReturns p signed_in = ReturnsTo (shows p)
    PageReturns p administrator =
        ReturnsTo (if is_admin after.user then shows p else redirect "/library" none)

    -- A branch that ends in a redirect of its own has no page to return to.
    abbrev EndReturns : Option Page → Type 0
    EndReturns none = Unit
    EndReturns (some p) = PageReturns p (access p)

    abbrev pub Returns : Type 0
    Returns = EndReturns (page_of (pick location.pathname))

    page-returns : (p : Page) (a : Access) → Reaches p a (pick location.pathname) → PageReturns p a
    unfolding login_success
    page-returns p everyone r = r
    page-returns p signed_in (r, q) = (r, rw r refl, rw r q)
    page-returns p administrator (r, q) = (r, rw r refl, rw r q)

    branch-returns : (o : Option Page) → EndReaches o (pick location.pathname) → EndReturns o
    branch-returns none r = tt
    branch-returns (some p) r = page-returns p (access p) r

all-reach :
    (location : Location) (before : AuthState) (token : String) (user : User)
    → before.status ≡ anonymous
    → AllReach location before (set_session token user before) (branches router)
unfolding render protected_route admin_route set_session
all-reach location before token user e = ground arith

module _ (h : Host) (w : World) (res : Response) (body : Json) (p : AuthResponse) where
  -- For a visitor who is anonymous and asks for a location whose path is led to a branch of the
  -- table of routes, if the server answers the sign-in with success, JSON and a valid session, the
  -- form closes with nothing to report. If the branch ends in a page that anyone may see, the page
  -- was shown at once. If it ends in another page, the guard led to the sign-in with the location
  -- asked for, the success of the form navigates to the path of that location, without its search
  -- and hash, and what is shown there is the page, or for the administration of the feeds, if the
  -- user is no administrator, a redirect to the library.
  pub sign_in_returns :
      (pick : String → List Element) (location : Location) (values : LoginInput)
      → IsBranch (pick location.pathname) (branches router)
      → w.auth.status ≡ anonymous
      → is_ok res ≡ true
      → res.status ≢ 204
      → res.json ≡ some body
      → h.parse_auth_response body ≡ some p
      → h.server w.sent (request w.auth.access_token "/auth/login" (login_init values))
        ≡ response res
      → let (form, after) = submit_login h values w in
        (form ≡ succeeded []) × Returns location w.auth after.auth pick
  unfolding submit_login install app
  sign_in_returns pick location values led e good more j fits a =
      let accepted = login_accepted h w res body p good more j fits values a in
      let reached =
        branch_reached location w.auth _ (pick location.pathname) (branches router)
          (all-reach location w.auth _ (map_user p.user) e) led in
      rw accepted
        (refl, branch-returns location w.auth _ pick (page_of (pick location.pathname)) reached)
