-- ===== src/Config.antt =====
-- The configuration server: server/config.
pub mod Files
pub mod Filters
pub mod Watchers
pub mod Core
mod Examples
