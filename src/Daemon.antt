-- ===== src/Daemon.antt =====
-- crates/omni-daemon: who listens to a session, and the sessions that are held open.
pub mod Wiring
pub mod Live
