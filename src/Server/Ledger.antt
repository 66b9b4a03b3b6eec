-- ===== src/Server/Ledger.antt =====
-- The tables that the server keeps: server/src/ledger.rs, with the keys that server/src/schema.rs
-- declares unique. A table is the list of its rows, newest first. SQLite is not modelled: for each
-- statement the caller says whether it fails, and a statement that fails changes nothing.
pub mod Tables
pub mod Devgraph
pub mod Retry
pub mod Nullifiers
pub mod UseCount
pub mod Replay
pub mod Uniqueness
pub mod AtMostOnce
