-- ===== src/Web/View/Offers.antt =====
-- What the parts of a view of web/src offer.
use linktheca.Prelude.{
  String, ◌≡◌, refl, Bool, false, ◌||◌, Option, none, some, [], ◌∷◌, ◌++◌, map, arith,
}
use linktheca.Web.View.{
  View, heading, text, alert, skeleton, image, link, button, field, checkbox, map_part, offers,
  alert_of, text_of,
}

module _ {E : Type 0} (kind : E → Bool) where
  pub offers-append : (u v : View E) → offers kind (u ++ v) ≡ offers kind u || offers kind v
  offers-append [] v = refl
  offers-append (button label disabled e ∷ u) v = ground (arith, offers-append u v)
  offers-append (checkbox id checked e ∷ u) v = ground (arith, offers-append u v)
  offers-append (heading s ∷ u) v = offers-append u v
  offers-append (text s ∷ u) v = offers-append u v
  offers-append (alert s ∷ u) v = offers-append u v
  offers-append (skeleton s ∷ u) v = offers-append u v
  offers-append (image s ∷ u) v = offers-append u v
  offers-append (link to label ∷ u) v = offers-append u v
  offers-append (field id invalid disabled ∷ u) v = offers-append u v

  pub offers-alert_of : (m : Option String) → offers kind (alert_of m) ≡ false
  offers-alert_of none = refl
  offers-alert_of (some m) = ground arith

  pub offers-text_of : (m : Option String) → offers kind (text_of m) ≡ false
  offers-text_of none = refl
  offers-text_of (some m) = refl

module _ {E F : Type 0} (kind : F → Bool) (g : E → F) where
  pub offers-map : (v : View E) → offers kind (map (map_part g) v) ≡ offers (λ e. kind (g e)) v
  offers-map [] = refl
  offers-map (button label disabled e ∷ v) = ground (arith, offers-map v)
  offers-map (checkbox id checked e ∷ v) = ground (arith, offers-map v)
  offers-map (heading s ∷ v) = offers-map v
  offers-map (text s ∷ v) = offers-map v
  offers-map (alert s ∷ v) = offers-map v
  offers-map (skeleton s ∷ v) = offers-map v
  offers-map (image s ∷ v) = offers-map v
  offers-map (link to label ∷ v) = offers-map v
  offers-map (field id invalid disabled ∷ v) = offers-map v

-- No control does what is never done.
pub offers_never : {E : Type 0} (v : View E) → offers (λ e. false) v ≡ false
offers_never [] = refl
offers_never (button label disabled e ∷ v) = ground (arith, offers_never v)
offers_never (checkbox id checked e ∷ v) = offers_never v
offers_never (heading s ∷ v) = offers_never v
offers_never (text s ∷ v) = offers_never v
offers_never (alert s ∷ v) = offers_never v
offers_never (skeleton s ∷ v) = offers_never v
offers_never (image s ∷ v) = offers_never v
offers_never (link to label ∷ v) = offers_never v
offers_never (field id invalid disabled ∷ v) = offers_never v

pub ruleset offering = (offers-append, offers-alert_of, offers-text_of)
