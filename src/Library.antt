-- ===== src/Library.antt =====
-- web/src/features/library: the saved articles.
pub mod Types
pub mod Schemas
pub mod LibraryKeys
pub mod Requests
pub mod Mutations
pub mod Filters
pub mod Queries
pub mod Cards
pub mod Grid
pub mod Page
pub mod Reader
pub mod Labels
pub mod AddLink
pub mod Actions
