-- ===== src/Auth.antt =====
-- features/auth of the web client: the stored refresh token, the session store, the wire schemas.
pub mod Storage
pub mod Store
pub mod Schemas
pub mod Consistency
pub mod Session
pub mod Forms
