-- ===== src/Management.antt =====
-- Management of sessions (src/management.rs), whose parts are the children. The Mutex is one
-- owner at a time, so each method is a function on the state `Inner`, at the instant `now` of the
-- call; the broadcast of updates wakes dashboards only and is left out.
pub mod Types
pub mod Sessions
pub mod Metrics
pub mod Estimates
pub mod Reports
pub mod StreamBounds
pub mod Lifecycle
pub mod Starts
pub mod Closing
mod Tests
