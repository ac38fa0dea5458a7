-- ===== src/Attempts/Signing.antt =====
-- `BeginAttemptSigning` and `CompleteAttemptSigning` of internal/storage/sqlite/attempts.go.
use juno_exchange_gateway.Prelude.{
  ℕ, false, ◌||◌, ◌&&◌, Option, none, some, List, String, str_eq, if◌then◌else◌,
}
use juno_exchange_gateway.State.{State, reserved, signing, signing_unknown, signed, same_state}
use juno_exchange_gateway.Db.{
  Attempt, Db, Outcome, ok, err, state_conflict, database, find_attempt, update_attempt,
  insert_attempt_event,
}

unfoldable pub to_signing : ℕ → Attempt → Attempt
to_signing now a = record a {
  state = signing;
  error_code = "";
  error_message = "";
  error_retryable = false;
  updated_at = now;
}

-- The attempt that is returned keeps the error fields that were read, unlike the row.
unfoldable pub begin_for : State → ℕ → Attempt → Db → Outcome Attempt × Db
begin_for signing now a db = (ok a, db)
begin_for signing_unknown now a db = (ok a, db)
begin_for reserved now a db = (
  ok (record a { state = signing; updated_at = now }),
  record db {
    attempts = update_attempt a.attempt_id (to_signing now) db.attempts;
    events = insert_attempt_event a.attempt_id signing none now db.events;
  },
)
begin_for _ now a db = (err state_conflict, db)

unfoldable pub begin_attempt_signing : String → ℕ → Db → Outcome Attempt × Db
unfolding begin_for to_signing
begin_attempt_signing id now db = elim (find_attempt id db.attempts) [
  | none ↦ (err database, db)
  | some a ↦ begin_for a.state now a db
]

-- What the signer returned.
pub record Signed : Type 0 where
  pub txid : String
  pub raw_tx_hex : String
  pub fee_zat : String
  pub output_indices : List ℕ
  pub change_index : Option ℕ

unfoldable pub to_signed : Signed → ℕ → Attempt → Attempt
to_signed r now a = record a {
  state = signed;
  txid = r.txid;
  raw_tx_hex = r.raw_tx_hex;
  fee_zat = r.fee_zat;
  orchard_output_action_indices = r.output_indices;
  orchard_change_action_index = r.change_index;
  error_code = "";
  error_message = "";
  error_retryable = false;
  updated_at = now;
}

complete_for : Signed → ℕ → Attempt → Db → Outcome (Unit {0}) × Db
complete_for r now a db =
    if same_state a.state signed && str_eq a.txid r.txid && str_eq a.raw_tx_hex r.raw_tx_hex
    then (ok tt, db)
    else if same_state a.state signing || same_state a.state signing_unknown
    then (
      ok tt,
      record db {
        attempts = update_attempt a.attempt_id (to_signed r now) db.attempts;
        events = insert_attempt_event a.attempt_id signed none now db.events;
      },
    )
    else (err state_conflict, db)

unfoldable pub complete_attempt_signing : String → Signed → ℕ → Db → Outcome (Unit {0}) × Db
unfolding complete_for to_signed
complete_attempt_signing id r now db = elim (find_attempt id db.attempts) [
  | none ↦ (err database, db)
  | some a ↦ complete_for r now a db
]
