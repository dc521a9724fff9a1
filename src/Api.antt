-- ===== src/Api.antt =====
-- web/src/shared/api: the HTTP client that every feature goes through.
pub mod Client
pub mod Envelope
pub mod QueryClient
pub mod Refresh
pub mod Calls
