-- ===== src/Server.antt =====
-- server/src/main.rs: the HTTP service around the prover.
pub mod Errors
pub mod Request
pub mod Auth
pub mod RateLimit
pub mod Metrics
pub mod Runtime
pub mod Config
pub mod Service
pub mod Threads
pub mod Host
pub mod Launch
pub mod Exposition
pub mod App
pub mod Tests
