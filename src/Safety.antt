-- ===== src/Safety.antt =====
-- No note is spent twice: what the store calls of the coordinator
-- (internal/coordinator/service.go) keep true of the tables of internal/storage/sqlite/attempts.go,
-- in whatever order the workers, the recovery loop and the requests make them.
pub mod Invariant
pub mod Updates
pub mod Steps
pub mod Reach
pub mod Evolves
pub mod Evolution
pub mod Descent
pub mod Released
