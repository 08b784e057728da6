-- ===== src/Storage.antt =====
-- The key-value storage of server/storage/kv.go.
pub mod KeyTree
pub mod Hooks
pub mod Memory
pub mod Kv
pub mod Badger
mod Examples
