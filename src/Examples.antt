-- ===== src/Examples.antt =====
-- The theorems at concrete inputs, with the small crypto library, values and states that they need.
pub mod Libraries
pub mod Policies
pub mod Resources
pub mod Documents
pub mod Grants
pub mod Routes
pub mod Session
pub mod Scoped
pub mod SessionKeys
pub mod SessionProofs
pub mod Gateway
mod GatewayRuns
mod Stores
