-- ===== src/Auth/Store.antt =====
-- web/src/features/auth/store.ts: who is signed in.
use linktheca.Prelude.{ℕ, String, Bool, Option, none, some}

pub record User : Type 0 where
  pub id : ℕ
  pub email : String
  pub display_name : String
  pub is_admin : Bool

pub data AuthStatus : Type 0 where
  bootstrapping authed anonymous : AuthStatus

pub record AuthState : Type 0 where
  pub access_token : Option String
  pub user : Option User
  pub status : AuthStatus

-- The store's value when the page loads.
abbrev pub initial : AuthState
initial = record { access_token = none; user = none; status = bootstrapping }

unfoldable pub set_session : String → User → AuthState → AuthState
set_session token user s = record s { access_token = some token; user = some user; status = authed }

unfoldable pub clear_session : AuthState → AuthState
clear_session s = record s { access_token = none; user = none; status = anonymous }
