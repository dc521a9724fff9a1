-- ===== src/Web/App/Keeps.antt =====
-- Invariants of actions: what holds before one holds after it, whether it returns or throws.
use linktheca.Prelude.{Bool, true, false, if◌then◌else◌}
use linktheca.Web.Http.{Thrown}
use linktheca.Web.App.{
  World, Result, ok, err, App, pure, throw, handle, catch, continue, ◌>>=◌, ◌>>◌, get_storage,
}

pub record Preserves {A : Type 0} (P : World → Type 0) (m : App A) : Type 0 where
  pub after : (w : World) → P w → P (m w).1

module _ {P : World → Type 0} where
  module _ {A : Type 0} where
    pub Preserves-pure : (a : A) → Preserves P (pure a)
    unfolding pure
    Preserves-pure a = record { after = λ w p. p }

    pub Preserves-throw : (e : Thrown) → Preserves P (throw {A = A} e)
    unfolding throw
    Preserves-throw e = record { after = λ w p. p }

    pub Preserves-if :
        (b : Bool) (m n : App A) → Preserves P m → Preserves P n → Preserves P (if b then m else n)
    Preserves-if true m n km kn = km
    Preserves-if false m n km kn = kn

    handle-keeps :
        (f : Thrown → App A)
        → ((e : Thrown) → Preserves P (f e))
        → (r : Result A × World) → P r.1
        → P (handle f r).1
    handle-keeps f kf (ok a, w) p = p
    handle-keeps f kf (err e, w) p = (kf e).after w p

    pub Preserves-catch :
        (m : App A) (f : Thrown → App A)
        → Preserves P m
        → ((e : Thrown) → Preserves P (f e))
        → Preserves P (catch m f)
    unfolding catch
    Preserves-catch m f km kf = record { after = λ w p. handle-keeps f kf (m w) (km.after w p) }

  module _ {A B : Type 0} where
    continue-keeps :
        (f : A → App B)
        → ((a : A) → Preserves P (f a))
        → (r : Result A × World) → P r.1
        → P (continue f r).1
    continue-keeps f kf (ok a, w) p = (kf a).after w p
    continue-keeps f kf (err e, w) p = p

    pub Preserves-bind :
        (m : App A) (f : A → App B)
        → Preserves P m
        → ((a : A) → Preserves P (f a))
        → Preserves P (m >>= f)
    unfolding ◌>>=◌
    Preserves-bind m f km kf = record { after = λ w p. continue-keeps f kf (m w) (km.after w p) }

  pub Preserves-then :
      {B : Type 0} (m : App (Unit {0})) (n : App B)
      → Preserves P m
      → Preserves P n
      → Preserves P (m >> n)
  unfolding ◌>>◌
  Preserves-then m n km kn = Preserves-bind m (λ _. n) km (λ _. kn)

  pub Preserves-get_storage : Preserves P get_storage
  unfolding get_storage
  Preserves-get_storage = record { after = λ w p. p }

pub ruleset preserves_rules = (
  Preserves-pure, Preserves-throw, Preserves-if, Preserves-catch, Preserves-bind, Preserves-then,
  Preserves-get_storage,
)
