-- ===== src/Auth/Schemas.antt =====
-- web/src/features/auth/schemas.ts: the shapes of the server's answers.
use linktheca.Prelude.{ℕ, String, Bool}
use linktheca.Auth.Store.{User}

pub record RawUser : Type 0 where
  pub id : ℕ
  pub email : String
  pub display_name : String
  pub is_admin : Bool
  pub created_at : String
  pub updated_at : String

pub record TokenPair : Type 0 where
  pub access_token : String
  pub refresh_token : String

pub record AuthResponse : Type 0 where
  pub user : RawUser
  pub tokens : TokenPair

unfoldable pub map_user : RawUser → User
map_user raw = record {
  id = raw.id;
  email = raw.email;
  display_name = raw.display_name;
  is_admin = raw.is_admin;
}
