-- ===== src/Cache.antt =====
-- The query cache that the features share, behind what they rely on of `@tanstack/react-query`.
pub mod Keys
pub mod Interface
pub mod Assoc
