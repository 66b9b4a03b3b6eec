-- ===== src/Server/Gateway.antt =====
-- The router of verified calls: server/src/gateway.rs. `route_verified` is split where it stops:
-- the questions that change nothing (Check), the gates that leave a trace (Admit), and the handler
-- with its receipts (Execute).
pub mod Setup
pub mod Check
pub mod Trace
pub mod Admit
pub mod Execute
pub mod Frame
pub mod Described
pub mod Granted
pub mod Checked
pub mod Gates
pub mod Once
pub mod Outcome
pub mod Safety
