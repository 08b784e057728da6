-- ===== src/Raft.antt =====
-- The raft protocol of server/core/raft_protocol.go: the state machines that the raft library drives,
-- and the servers that the protocol starts.
pub mod Machine
pub mod Servers
pub mod Kv
mod Examples
