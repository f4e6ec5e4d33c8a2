-- ===== src/Transport.antt =====
-- WebTransport sessions (src/webtransport_server.rs), whose parts are the children. QUIC itself and
-- the tasks of tokio are third-party code: a session is the sequence of what its streams deliver.
pub mod Framing
pub mod Admission
pub mod Routing
pub mod Sessions
mod Tests
