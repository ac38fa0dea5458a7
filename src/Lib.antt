-- ===== src/Lib.antt =====
-- Verification library of the Juno exchange gateway (internal/), which takes withdrawals, plans and
-- signs them, follows them on the chain, and keeps the notes of two withdrawals apart.
--
-- The parts of the program and their models:
-- - State, Db, Attempts: the attempt store, internal/storage/sqlite/attempts.go over the schema of
--   internal/storage/sqlite/sqlite.go. Db holds the tables as lists of rows. Each operation of the
--   store is one function from the tables to its answer and the tables after it: ClaimAttempt is
--   `claim_attempt` and so on. SQL transactions and the mutex of the store make it one step.
-- - Safety: the steps that requests and workers make at the store, in any order (`Step`, `Reach`),
--   the invariant of the reservations, and what becomes of an attempt.
-- - Domain: the types of internal/domain/types.go, the checks of note statuses, and digit strings.
-- - Coordinator: internal/coordinator. Request and Plan are types.go; Signer is signer.go; Signing,
--   Planning, Reconcile and Process are the workers of service.go with the change split of
--   inventory.go; Responses is what a caller is shown and may cancel. What a worker asks of the
--   planner, the signer, the node and the scanner is an argument. What others do to the store while
--   the planner or the signer works, and between two steps of a worker, is an argument too. Within one
--   reconciliation nothing of others comes between the row that is read and the marks, or between two
--   marks: there MarkAttemptState checks each transition against the row itself.
-- - Receipts: the idempotency receipts of internal/storage/sqlite/sqlite.go.
-- - Addresses: the address indices of internal/installation/state.go, the allocation of
--   internal/storage/guarded/guarded.go and the check at startup of
--   internal/lifecycle/lifecycle.go.
-- - Storage: the wallets, their addresses and the recovery seal of internal/storage/sqlite/sqlite.go.
-- - Gateway: the HTTP API, internal/api. Response is what a handler answers; Auth is auth.go with the
--   guard of api.go; Cursor is cursor.go; Effects is wallet_effects.go; Requests, Ready, Broadcast,
--   Deposits, Transactions and Reads are the handlers of api.go and what they call. A handler is a
--   function of its request and of what the others answer. Broadcast works on the receipts of
--   Receipts, and Reads and Registry (registry.go) on the tables of Storage.
-- - Prelude: Boolean tests, strings and lists. Tests: sample data and the theorems at it.
--
-- Bounds: heights, amounts, times and generations are natural numbers. The sum of outputs wraps
-- around at 2^64 as in the source. The widening of the change split runs on the configured number of
-- steps, as the source's loop does, and a worker makes three rounds. The loop over the pages of a
-- transaction's effects has fuel for one page more than the cap on the effects, which is enough: each
-- page that is full adds one effect at least.
--
-- Parameters, since their code is not in this repository: JSON, SHA-256, the case of letters, the
-- txbuild program and the signer's service, HMAC and base64. Reading the store does not fail in the
-- model, and a cancelled context is left out.
--
-- Not modelled: of the HTTP API the routes, the rate limiter (it counts in floating point), the start of
-- the wallet registry and the note summary; the coordinator's HTTP API, the configuration, the clients of node
-- and scanner, the files of an installation, the lifecycle commands, the queue of the workers and
-- the note inventory.
pub mod Prelude
pub mod State
pub mod Domain
pub mod Db
pub mod Attempts
pub mod Safety
pub mod Receipts
pub mod Addresses
pub mod Coordinator
pub mod Storage
pub mod Gateway
pub mod Tests
