-- ===== src/Cluster.antt =====
-- The members of a cluster: server/cluster.
pub mod Member
pub mod Manager
pub mod Lookups
pub mod Changes
pub mod Vacancy
pub mod Addresses
pub mod Reports
pub mod Endpoints
pub mod Examples
