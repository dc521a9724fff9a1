-- ===== src/Tests.antt =====
-- Runs of the definitions on small inputs, and the theorems at inputs that meet their conditions.
mod Fixtures
mod Session
mod Refresh
mod Calls
mod Cache
mod Library
mod Radar
mod Dialogs
mod Journeys
mod Pages
