-- ===== src/Coordinator.antt =====
-- internal/coordinator: the transaction coordinator.
pub mod Request
pub mod Plan
pub mod Signer
pub mod Signing
pub mod Planning
pub mod Reconcile
pub mod Process
pub mod Responses
