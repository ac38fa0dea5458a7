-- ===== src/Tests.antt =====
-- Sample data and the theorems at concrete inputs.
pub mod Sample
pub mod Ready
pub mod Codec
mod Graph
mod Store
mod Requests
mod Proof
mod Responses
mod Workers
mod Signer
mod Receipts
mod Addresses
mod Gateway
mod Broadcast
mod Deposits
mod Notes
mod Storage
mod Wallets
mod Transactions
