-- ===== src/Gateway.antt =====
-- internal/gateway: the per-identity reverse proxy. The parts are its guards, the headers that it
-- copies, the retry rule, the anti-CSRF tokens, and the handler that joins them.
pub mod Host
pub mod Retry
pub mod Headers
pub mod State
pub mod Csrf
pub mod Forward
pub mod Serve
pub mod Own
pub mod Alone
pub mod Still
pub mod Tasks
pub mod Audit
pub mod Setup
mod Examples
