-- ===== src/Attempts.antt =====
-- internal/storage/sqlite/attempts.go: the operations of the attempt store. Each is one SQL
-- transaction under the mutex of the store: it returns the tables after it, which are the tables
-- before it whenever it returns an error. `now` is the time argument, and `clock` is `time.Now`.
pub mod Claim
pub mod Reserve
pub mod Signing
pub mod Mark
pub mod Queries
pub mod Cases
pub mod States
