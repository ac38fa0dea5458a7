-- ===== src/Domain.antt =====
-- internal/domain/types.go: what the node and the scanner report, and the checks on it.
-- Heights, values and confirmations are numbers; a pointer field is an `Option`.
pub mod Network
pub mod Balance
pub mod Hex
pub mod Notes
pub mod NoteReports
pub mod NoteLaws
