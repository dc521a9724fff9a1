-- ===== src/Radar.antt =====
-- web/src/features/radar: topics, the articles that match them, and the feeds that are watched.
pub mod Types
pub mod Schemas
pub mod RadarKeys
pub mod Requests
pub mod Mutations
pub mod Inbox
pub mod Preview
pub mod Queries
pub mod Dialogs
pub mod Reader
pub mod Sources
pub mod Cards
pub mod TopicPage
