-- ===== src/Web/App/Laws.antt =====
-- How an action continues after its first step has returned or thrown.
use linktheca.Prelude.{◌≡◌, ap}
use linktheca.Web.Http.{Thrown}
use linktheca.Web.App.{World, ok, err, App, ◌>>=◌, ◌>>◌, catch, continue, handle}

module _ {ℓ} {A B : Type ℓ} (m : App A) (f : A → App B) {w w' : World} where
  pub bind-ok : {a : A} → m w ≡ (ok a, w') → (m >>= f) w ≡ f a w'
  unfolding ◌>>=◌
  bind-ok e = ap (continue f) e

  pub bind-err : {x : Thrown} → m w ≡ (err x, w') → (m >>= f) w ≡ (err x, w')
  unfolding ◌>>=◌
  bind-err e = ap (continue f) e

module _ {ℓ} {B : Type ℓ} (m : App (Unit {0})) (n : App B) {w w' : World} where
  pub then-ok : m w ≡ (ok tt, w') → (m >> n) w ≡ n w'
  unfolding ◌>>◌ ◌>>=◌
  then-ok e = ap (continue (λ _. n)) e

  pub then-err : {x : Thrown} → m w ≡ (err x, w') → (m >> n) w ≡ (err x, w')
  unfolding ◌>>◌ ◌>>=◌
  then-err e = ap (continue (λ _. n)) e

module _ {ℓ} {A : Type ℓ} (m : App A) (f : Thrown → App A) {w w' : World} where
  pub catch-ok : {a : A} → m w ≡ (ok a, w') → catch m f w ≡ (ok a, w')
  unfolding catch
  catch-ok e = ap (handle f) e

  pub catch-err : {x : Thrown} → m w ≡ (err x, w') → catch m f w ≡ f x w'
  unfolding catch
  catch-err e = ap (handle f) e
