-- ===== src/Server.antt =====
-- internal/server: what the sessions of clients ask of the store, the lines of sources, and the sources
-- that a server runs.
pub mod Session
pub mod Ansi
pub mod Lines
pub mod Histogram
pub mod Hub
pub mod Pump
pub mod Idle
