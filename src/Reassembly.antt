-- ===== src/Reassembly.antt =====
-- Access-unit reassembly (src/v4l2_decoder.rs): packets in, complete video frames out. The statics
-- of the module are one record, `Decoder`, which each call takes and returns. Times are Instants in
-- nanoseconds; floats stand as their bit patterns.
pub mod Types
pub mod Tag
pub mod Header
pub mod Assemble
pub use Types.*
