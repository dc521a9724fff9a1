-- ===== src/Web.antt =====
-- What the client uses of the browser: JSON values, HTTP requests and replies, and the state that
-- an action of the client reads and changes.
pub mod Json
pub mod Http
pub mod App
pub mod Location
pub mod Date
pub mod Number
pub mod Paging
pub mod Form
pub mod SearchParams
pub mod Schema
pub mod View
pub mod Dialog
pub mod Timers
pub mod Debounce
pub mod Text
pub mod Query
