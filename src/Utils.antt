-- ===== src/Utils.antt =====
-- The helpers of utils that read numbers: from texts (common_util.go) and from the environment
-- (system_util.go).
pub mod Integers
pub mod Environment
mod Examples
