-- ===== src/Web/Form.antt =====
-- What a dialog with a form is left with after its `onSubmit`: `topError`, the field errors, whether
-- it closes, what the user is told, and the page's own callback.
use linktheca.Prelude.{String, Bool, true, false, Option, none, some, List, []}
use linktheca.Web.Http.{Thrown}
use linktheca.Web.App.{Effect, Result, ok, err}

pub record Form : Type 0 where
  pub top_error : Option String
  pub field_error : Option String
  pub closed : Bool
  pub disabled : Bool
  pub told : List Effect

-- `setTopError(null)`
abbrev pub clean : Form
clean = record { top_error = none; field_error = none; closed = false; disabled = false; told = [] }

abbrev pub failed : String → Form
failed message = record clean { top_error = some message }

abbrev pub succeeded : List Effect → Form
succeeded told = record clean { closed = true; told = told }

-- `try { …; onClose(); } catch (err) { … }`
abbrev pub settle {ℓ} : {A : Type ℓ} → (A → List Effect) → (Thrown → Form) → Result A → Form
settle on_ok on_err (ok a) = succeeded (on_ok a)
settle on_ok on_err (err e) = on_err e
