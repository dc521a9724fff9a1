-- ===== src/Auth/Forms.antt =====
-- The submit handlers of web/src/features/auth/components/LoginForm.tsx and RegisterForm.tsx.
pub mod Pages
use linktheca.Prelude.{
  String, true, Option, none, some, [], ◌&&◌, ◌==◌, nat_eq, string_eq, leb, if◌then◌else◌,
}
use linktheca.Web.Location.{Location}
use linktheca.Web.Http.{Thrown, api, Host}
use linktheca.Web.App.{World}
use linktheca.Web.Form.{Form, clean, failed, settle}
use linktheca.Auth.Session.{LoginInput, RegisterInput, login, register}

-- `message || fallback`
abbrev pub or_text : String → String → String
or_text message fallback = if message == "" then fallback else message

unfoldable pub login_error : Thrown → String
login_error (api e) =
    if e.status == 401
    then "Invalid email or password"
    else if leb 500 e.status
    then "Service unavailable. Please try again."
    else or_text e.message "Something went wrong"
login_error _ = "Something went wrong"

unfoldable register_failed : Thrown → Form
register_failed (api e) =
    if e.status == 403 && e.code == "registration_disabled"
    then record clean { disabled = true }
    else if e.status == 409
    then failed "An account with this email already exists."
    else if e.status == 400 && e.code == "weak_password"
    then record clean { field_error = some "Password is too weak" }
    else if leb 500 e.status
    then failed "Service unavailable. Please try again."
    else failed (or_text e.message "Something went wrong")
register_failed _ = failed "Something went wrong"

module _ (h : Host) where
  -- `onSubmit` of LoginForm.tsx; `closed` stands for `onSuccess()`.
  unfoldable pub submit_login : LoginInput → World → Form × World
  submit_login values w =
      let (r, after) = login h values w in (settle (λ _. []) (λ e. failed (login_error e)) r, after)

  unfoldable submit_register : RegisterInput → World → Form × World
  submit_register values w =
      let (r, after) = register h values w in (settle (λ _. []) register_failed r, after)

-- `state?.from?.pathname ?? "/library"` of web/src/routes/login.tsx
abbrev pub after_login : Option Location → String
after_login none = "/library"
after_login (some from) = from.pathname
