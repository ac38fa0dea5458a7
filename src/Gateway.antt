-- ===== src/Gateway.antt =====
-- internal/api: the HTTP API of the gateway.
pub mod Response
pub mod Auth
pub mod Cursor
pub mod Requests
pub mod Effects
pub mod Deposits
pub mod Transactions
pub mod Reads
pub mod Registry
pub mod Ready
pub mod Broadcast
