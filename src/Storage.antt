-- ===== src/Storage.antt =====
-- internal/storage/sqlite/sqlite.go: the tables of the gateway's database beside the attempts and the
-- receipts. Each operation is one SQL transaction, or one statement; an error leaves the
-- tables as they were, and no statement fails but by a constraint.
pub mod Seal
pub mod Wallets
