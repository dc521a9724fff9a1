-- ===== src/Auth/Forms/Pages.antt =====
-- What LoginForm.tsx, RegisterForm.tsx and RegistrationDisabled.tsx of
-- web/src/features/auth/components render, and the pages web/src/routes/login.tsx and register.tsx.
use linktheca.Prelude.{
  String, Bool, true, false, Option, List, [], ◌∷◌, ◌++◌, ltb, is_some, nullish, if◌then◌else◌,
}
use linktheca.Web.Location.{Location}
use linktheca.Web.Text.{text_length}
use linktheca.Web.View.{View, Click, save, text, link, button, field, alert_of, error_of, labelled}
use linktheca.Web.App.{Effect, navigate}
use linktheca.Auth.Session.{LoginInput, RegisterInput}
use linktheca.Auth.Forms.{after_login}

-- A schema's message, before those of the fields after it.
abbrev pub unless : Bool → String → String → List (String × String) → List (String × String)
unless valid name message rest = if valid then rest else (name, message) ∷ rest

-- The package `zod` decides what an email address is.
module _ (is_email : String → Bool) where
  unfoldable login_errors : LoginInput → List (String × String)
  login_errors v =
      unless (is_email v.email) "email" "Please enter a valid email address"
        (if ltb (text_length v.password) 1 then ("password", "Password is required") ∷ [] else [])

  unfoldable register_errors : RegisterInput → List (String × String)
  register_errors v =
      let rest =
        if ltb (text_length v.password) 10
        then ("password", "Password must be at least 10 characters") ∷ []
        else [] in
      unless (is_email v.email) "email" "Please enter a valid email address" (
        if ltb (text_length v.display_name) 1
        then ("displayName", "Display name is required") ∷ rest
        else rest)

abbrev pub entry : String → String → String → List (String × String) → View Click
entry label id name errors = labelled label id name errors false

unfoldable login_form : Option String → List (String × String) → Bool → View Click
login_form top_error errors is_submitting =
    alert_of top_error
    ++ (entry "Email" "email" "email" errors
        ++ (entry "Password" "password" "password" errors
            ++ (button (if is_submitting then "Signing in…" else "Sign in") is_submitting save
                ∷ link "/register" "Create account →"
                ∷ [])))

unfoldable register_form : Option String → List (String × String) → Bool → View Click
register_form top_error errors is_submitting =
    alert_of top_error
    ++ (entry "Email" "email" "email" errors
        ++ (entry "Display name" "displayName" "displayName" errors
            ++ (text "Password"
                ∷ field "password" (is_some (error_of "password" errors)) false
                ∷ text (nullish (error_of "password" errors) "At least 10 characters.")
                ∷ button (if is_submitting then "Creating account…" else "Create account")
                    is_submitting save
                ∷ link "/login" "← Back to sign in"
                ∷ [])))

abbrev pub registration_disabled : View Click
registration_disabled =
    text "Registration is closed"
    ∷ text "New accounts are disabled on this instance."
    ∷ link "/login" "← Back to sign in"
    ∷ []

-- `onSuccess` of the two pages.
unfoldable pub login_success : Option Location → Effect
login_success from = navigate (after_login from) true

unfoldable register_success : Effect
register_success = navigate "/library" true

-- RegisterRoute: after `onRegistrationDisabled` the form is gone.
unfoldable register_page : Bool → Option String → List (String × String) → Bool → View Click
unfolding register_form
register_page disabled top_error errors is_submitting =
    if disabled then registration_disabled else register_form top_error errors is_submitting
