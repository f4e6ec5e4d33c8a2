-- ===== src/ControlLoop.antt =====
-- The control loop (src/main.rs): the receiver's state between two turns of the loop, and a function
-- for each branch that a turn may take. The sessions, the decoder and the playback process act on
-- the same state between the turns.
pub mod Types
pub mod Status
pub mod Commands
pub mod Frames
pub mod Steps
pub mod Idle
pub mod Sound
pub mod Stops
pub mod Announced
pub mod Turns
mod Tests
