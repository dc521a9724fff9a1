-- ===== src/Web/App.antt =====
-- An action of the client: it reads and changes the world, and returns or throws. What was written
-- before a throw stays written.
pub mod Laws
pub mod Keeps
use linktheca.Prelude.{ℕ, String, Bool, Option, none, some, List, [], ◌∷◌, ◌≡◌, refl}
use linktheca.Web.Json.{Json}
use linktheca.Web.Http.{
  Host, Request, Response, Reply, failed, response, Thrown, network_error, syntax_error,
}
use linktheca.Auth.Storage.{Storage}
use linktheca.Auth.Store.{AuthState}

-- What the user notices besides the store: messages, the page shown, the emptied query cache.
pub data Effect : Type 0 where
  toast_success toast_error toast_info : String → Effect
  navigate : String → Bool → Effect
  clear_queries : Effect

-- `sent` and `effects` have the newest first.
pub record World : Type 0 where
  pub storage : Storage
  pub auth : AuthState
  pub sent : List Request
  pub effects : List Effect

pub data Result {ℓ} (A : Type ℓ) : Type ℓ where
  ok : A → Result A
  err : Thrown → Result A

abbrev pub App {ℓ} : Type ℓ → Type ℓ
App A = World → Result A × World

module _ {ℓ} {A : Type ℓ} where
  unfoldable pub pure : A → App A
  pure a w = (ok a, w)

  unfoldable pub throw : Thrown → App A
  throw e w = (err e, w)

  abbrev pub handle : (Thrown → App A) → Result A × World → Result A × World
  handle f (ok a, w) = (ok a, w)
  handle f (err e, w) = f e w

  -- `try { m } catch (e) { f(e) }`
  unfoldable pub catch : App A → (Thrown → App A) → App A
  catch m f w = handle f (m w)

module _ {ℓ κ} {A : Type ℓ} {B : Type κ} where
  abbrev pub continue : (A → App B) → Result A × World → Result B × World
  continue f (ok a, w) = f a w
  continue f (err e, w) = (err e, w)

  infixl 5 ◌>>=◌
  unfoldable pub ◌>>=◌ : App A → (A → App B) → App B
  ◌>>=◌ m f w = continue f (m w)

module _ {ℓ} {B : Type ℓ} where
  infixl 5 ◌>>◌
  unfoldable pub ◌>>◌ : App (Unit {0}) → App B → App B
  unfolding ◌>>=◌
  m >> n = m >>= λ _. n

unfoldable pub get_storage : App Storage
get_storage w = (ok w.storage, w)

unfoldable pub get_auth : App AuthState
get_auth w = (ok w.auth, w)

unfoldable pub modify_storage : (Storage → Storage) → App (Unit {0})
modify_storage f w = (ok tt, record w { storage = f w.storage })

unfoldable pub modify_auth : (AuthState → AuthState) → App (Unit {0})
modify_auth f w = (ok tt, record w { auth = f w.auth })

unfoldable pub perform : Effect → App (Unit {0})
perform e w = (ok tt, record w { effects = e ∷ w.effects })

unfoldable pub received : Reply → World → Result Response × World
received failed w = (err network_error, w)
received (response res) w = (ok res, w)

-- `await fetch(…)`
unfoldable pub fetch : Host → Request → App Response
unfolding received
fetch h req w = received (h.server w.sent req) (record w { sent = req ∷ w.sent })

-- `await res.json()`
unfoldable pub json : Response → App Json
unfolding pure throw
json res w = elim res.json [ none ↦ throw syntax_error w | some j ↦ pure j w ]

-- The monad with all its actions, for the proofs that run one.
unfoldable pub app : Unit {0}
unfolding pure throw catch ◌>>=◌ ◌>>◌ get_storage get_auth modify_storage modify_auth perform fetch
    json received
app = tt
