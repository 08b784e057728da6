-- ===== src/Rds.antt =====
-- `EmbeddedRDS` of server/storage/rds.go. Go's database/sql with its driver is a parameter.
pub mod Queries
pub mod Modifications
mod Examples
