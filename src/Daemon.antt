-- ===== src/Daemon.antt =====
-- cmd/daemon.go and cmd/tls.go: from the command line and the configuration to the store, the
-- gateway and the listeners.
pub mod Flags
pub mod Startup
pub mod Proactive
pub mod Ports
pub mod Listen
pub mod Run
pub mod Life
pub mod Busy
pub mod Sample
mod Examples
