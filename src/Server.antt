-- ===== src/Server.antt =====
-- The receiving server: server/src.
pub mod Clock
pub mod Text
pub mod Enums
pub mod Errors
pub mod Privacy
pub mod Context
pub mod Nullifier
pub mod Ledger
pub mod Authority
pub mod Manifest
pub mod Receipt
pub mod Gateway
pub mod ProofKeys
pub mod Identity
