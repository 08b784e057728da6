-- ===== src/Health.antt =====
-- Plugins and health checks: plugin and client/healthcheck.
pub mod Plugins
pub mod Tasks
pub mod Checks
pub mod Runs
pub mod Leaks
pub mod Stops
pub mod Manager
mod Examples
