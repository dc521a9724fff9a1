-- ===== src/Web/View.antt =====
-- What a component of web/src renders, with the styling left out, and what its controls do.
pub mod Offers
use linktheca.Prelude.{
  ℕ, zero, suc, String, Bool, true, false, Option, none, some, List, [], ◌∷◌, ◌++◌, not, ◌&&◌, ◌||◌,
  ◌==◌, string_eq, is_some, if◌then◌else◌,
}

pub data Part (E : Type 0) : Type 0 where
  heading text alert skeleton image : String → Part E
  -- `<Link to>` and `<a href>`
  link : String → String → Part E
  -- a label, whether it is disabled, and what a click on it does
  button : String → Bool → E → Part E
  -- an id, whether its value is invalid, and whether it is disabled
  field : String → Bool → Bool → Part E
  -- an id, whether it is checked, and what a click on it does
  checkbox : String → Bool → E → Part E

abbrev pub View : Type 0 → Type 0
View E = List (Part E)

-- The same part, whose controls do something else.
abbrev pub map_part : {E F : Type 0} → (E → F) → Part E → Part F
map_part g (heading s) = heading s
map_part g (text s) = text s
map_part g (alert s) = alert s
map_part g (skeleton s) = skeleton s
map_part g (image s) = image s
map_part g (link to label) = link to label
map_part g (button label disabled e) = button label disabled (g e)
map_part g (field id invalid disabled) = field id invalid disabled
map_part g (checkbox id checked e) = checkbox id checked (g e)

-- A control that is not disabled does something of the kind.
abbrev pub offers : {E : Type 0} → (E → Bool) → View E → Bool
offers kind [] = false
offers kind (button label disabled e ∷ v) = not disabled && kind e || offers kind v
offers kind (checkbox id checked e ∷ v) = kind e || offers kind v
offers kind (heading s ∷ v) = offers kind v
offers kind (text s ∷ v) = offers kind v
offers kind (alert s ∷ v) = offers kind v
offers kind (skeleton s ∷ v) = offers kind v
offers kind (image s ∷ v) = offers kind v
offers kind (link to label ∷ v) = offers kind v
offers kind (field id invalid disabled ∷ v) = offers kind v

module _ {E : Type 0} where
  -- `{message && <div role="alert">…</div>}`
  abbrev pub alert_of : Option String → View E
  alert_of none = []
  alert_of (some m) = if m == "" then [] else alert m ∷ []

  abbrev pub text_of : Option String → View E
  text_of none = []
  text_of (some m) = text m ∷ []

module _ {E : Type 0} where
  -- The shapes that stand for what is being loaded.
  abbrev pub skeletons : ℕ → View E
  skeletons zero = []
  skeletons (suc n) = skeleton "" ∷ skeletons n

-- `errors.<name>?.message`, in a list of names and messages
abbrev pub error_of : String → List (String × String) → Option String
error_of name [] = none
error_of name ((n, m) ∷ es) = let rest = error_of name es in if n == name then some m else rest

module _ {E : Type 0} where
  -- A field of a form with its label, its id, and its message if it is invalid.
  abbrev pub labelled : String → String → String → List (String × String) → Bool → View E
  labelled label id name errors disabled =
      text label
      ∷ field id (is_some (error_of name errors)) disabled
      ∷ text_of (error_of name errors)

-- What the buttons of the dialogs do.
pub data Click : Type 0 where
  cancel save paste : Click

abbrev pub is_cancel : Click → Bool
is_cancel c = elim c [ cancel ↦ true | _ ↦ false ]

abbrev pub is_save : Click → Bool
is_save c = elim c [ save ↦ true | _ ↦ false ]

-- `DialogContent` of web/src/shared/ui/dialog.tsx: the children, and a cross that is never disabled.
unfoldable pub dialog_content : String → String → View Click → View Click
dialog_content title description children =
    (heading title ∷ text description ∷ children) ++ button "Close" false cancel ∷ []

-- `DialogFooter` with the two buttons that each form has.
abbrev pub footer : Bool → String → View Click
footer is_pending label = button "Cancel" is_pending cancel ∷ button label is_pending save ∷ []
