-- ===== src/Shell/Routes.antt =====
-- The routes of web/src/App.tsx, with the guards and layouts that they stand under. The package
-- `react-router` picks a branch of the tree by the address; what the branch shows is rendered from the
-- outside in.
pub mod Access
pub mod Landing
pub mod Returning
use linktheca.Prelude.{
  ℕ, zero, suc, String, Bool, true, false, Option, none, some, List, [], ◌∷◌, ◌++◌, map,
}
use linktheca.Web.Location.{Location}
use linktheca.Auth.Store.{AuthState}
use linktheca.Shell.{View, full_page_spinner, outlet, protected_route, admin_route}
use linktheca.Shell

pub data Page : Type 0 where
  login register library_list library_item inbox topics_list sources topic match settings : Page
  admin_sources not_found : Page

-- The elements of the routes: `<Navigate to replace />`, a layout that shows its outlet, the two
-- guards, and the pages.
pub data Element : Type 0 where
  navigate_to : String → Element
  layout protected admin : Element
  page : Page → Element

-- A route has a path, or is an index or a layout without one.
mutual
  pub data Route : Type 0 where
    route : Option String → Element → Routes → Route

  pub data Routes : Type 0 where
    nil : Routes
    cons : Route → Routes → Routes

abbrev leaf : String → Page → Route
leaf path p = route (some path) (page p) nil

abbrev pub router : Route
router = route none layout (
    cons (route none (navigate_to "/library") nil) (
      cons (route none layout (cons (leaf "login" login) (cons (leaf "register" register) nil))) (
        cons
          (route none protected (
            cons
              (route none layout (
                cons (leaf "library" library_list) (
                  cons (leaf "library/:id" library_item) (
                    cons (leaf "radar" inbox) (
                      cons (leaf "radar/topics" topics_list) (
                        cons (leaf "radar/sources" sources) (
                          cons (leaf "radar/topics/:topicId" topic) (
                            cons (leaf "radar/matches/:matchId" match) (
                              cons (leaf "settings" settings) (
                                cons
                                  (route none admin (
                                    cons (route (some "admin") (navigate_to "/admin/sources") nil)
                                      (cons (leaf "admin/sources" admin_sources) nil)))
                                  nil))))))))))
              nil))
          (cons (leaf "*" not_found) nil))))

-- A way from the root to a leaf: the elements on it, and the path.
abbrev pub Branch : Type 0
Branch = List Element × String

abbrev extend : Element → Branch → Branch
extend e (es, path) = (e ∷ es, path)

abbrev path_text : Option String → String
path_text none = ""
path_text (some s) = s

abbrev mutual
  pub branches : Route → List Branch
  branches (route path e nil) = (e ∷ [], path_text path) ∷ []
  branches (route path e (cons r rs)) = map (extend e) (branches r ++ all_branches rs)

  all_branches : Routes → List Branch
  all_branches nil = []
  all_branches (cons r rs) = branches r ++ all_branches rs

pub data Shown : Type 0 where
  spinner nothing : Shown
  redirect : String → Option Location → Shown
  shows : Page → Shown

abbrev of_guard : View → Shown → Shown
of_guard full_page_spinner rest = spinner
of_guard (Shell.navigate to from) rest = redirect to from
of_guard outlet rest = rest

-- What a branch shows at a location.
unfoldable pub render : AuthState → Location → List Element → Shown
render s location [] = nothing
render s location (navigate_to to ∷ es) = redirect to none
render s location (layout ∷ es) = render s location es
render s location (protected ∷ es) =
    let rest = render s location es in of_guard (protected_route s location) rest
render s location (admin ∷ es) =
    let rest = render s location es in of_guard (admin_route s location) rest
render s location (page p ∷ es) = shows p
