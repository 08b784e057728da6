-- ===== src/Discovery.antt =====
-- Service discovery: server/discovery.
pub mod Model
pub mod Lessor
pub mod Leases
pub mod Samples
pub mod Interfaces
pub mod Services
pub mod Storage
pub mod Manager
pub mod Requests
pub mod Deregistration
pub mod Refusals
pub mod Selector
pub mod Server
pub mod Instances
pub mod Examples
