-- ===== src/Attempts/Claim.antt =====
-- `ClaimAttempt`, `Attempt` and `SetAttemptChangeAddress` of internal/storage/sqlite/attempts.go.
use juno_exchange_gateway.Prelude.{
  ℕ, Bool, false, ◌||◌, Option, none, some, [], ◌∷◌, String, str_eq, is_empty, trim_space, mem,
  ◌==◌, not, if◌then◌else◌,
}
use juno_exchange_gateway.State.{planning, same_state}
use juno_exchange_gateway.Db.{
  Attempt, Db, Outcome, ok, err, incomplete, state_conflict, database, find_attempt, find_scoped,
  update_attempt, insert_attempt_event,
}

-- storage.ClaimState, without `in_progress`, which attempts do not use
pub data ClaimState : Type 0 where
  acquired replay conflict : ClaimState

claim_incomplete : Attempt → Bool
claim_incomplete a =
    is_empty a.attempt_id
    || is_empty a.scoped_idempotency_key
    || is_empty a.request_digest
    || is_empty a.principal_name
    || is_empty a.wallet_id
    || is_empty a.approval_reference
    || is_empty a.request_json

-- the row that `INSERT INTO transaction_attempts` makes: every other column takes its default
unfoldable pub inserted : Attempt → ℕ → Attempt
inserted a now = record {
  attempt_id = a.attempt_id;
  scoped_idempotency_key = a.scoped_idempotency_key;
  request_digest = a.request_digest;
  principal_name = a.principal_name;
  wallet_id = a.wallet_id;
  approval_reference = a.approval_reference;
  request_json = a.request_json;
  state = planning;
  change_address = "";
  plan_json = "";
  plan_digest = "";
  fee_zat = "";
  expiry_height = 0;
  selected_note_ids = [];
  txid = "";
  raw_tx_hex = "";
  orchard_output_action_indices = [];
  orchard_change_action_index = none;
  error_code = "";
  error_message = "";
  error_retryable = false;
  created_at = now;
  updated_at = now;
}

-- The insertion fails on a second row with the primary key, and on a wallet that is not registered
-- (`REFERENCES wallets`). The attempt that is returned is the candidate, not the row.
insert_attempt : Attempt → ℕ → Db → Outcome (ClaimState × Attempt) × Db
unfolding inserted
insert_attempt candidate now db = elim (find_attempt candidate.attempt_id db.attempts) [
  | some _ ↦ (err database, db)
  | none ↦
      if mem candidate.wallet_id db.wallets
      then (
        ok (acquired, record candidate { state = planning; created_at = now; updated_at = now }),
        record db {
          attempts = inserted candidate now ∷ db.attempts;
          events = insert_attempt_event candidate.attempt_id planning none now db.events;
        },
      )
      else (err database, db)
]

unfoldable pub claim_attempt : Attempt → ℕ → Db → Outcome (ClaimState × Attempt) × Db
unfolding claim_incomplete insert_attempt
claim_attempt candidate clock db =
    if claim_incomplete candidate
    then (err incomplete, db)
    else let now = if candidate.created_at == 0 then clock else candidate.created_at in
      elim (find_scoped candidate.scoped_idempotency_key db.attempts) [
        | some existing ↦
            if str_eq existing.request_digest candidate.request_digest
            then (ok (replay, existing), db)
            else (ok (conflict, existing), db)
        | none ↦ insert_attempt candidate now db
      ]

-- `Attempt`: a row that is not there is no error
unfoldable pub attempt : String → Db → Option Attempt
attempt id db = find_attempt id db.attempts

unfoldable pub with_change_address : String → ℕ → Attempt → Attempt
with_change_address address now a = record a { change_address = address; updated_at = now }

change_address_of : String → ℕ → Attempt → Db → Outcome (Unit {0}) × Db
change_address_of address now a db =
    if not (is_empty a.change_address)
    then if str_eq a.change_address address then (ok tt, db) else (err state_conflict, db)
    else if same_state a.state planning
    then (
      ok tt,
      record db {
        attempts = update_attempt a.attempt_id (with_change_address address now) db.attempts;
      },
    )
    else (err state_conflict, db)

-- `SetAttemptChangeAddress`
unfoldable pub set_attempt_change_address : String → String → ℕ → Db → Outcome (Unit {0}) × Db
unfolding change_address_of with_change_address
set_attempt_change_address id raw now db =
    let address = trim_space raw in
    if is_empty address then (err incomplete, db) else elim (find_attempt id db.attempts) [
      | none ↦ (err database, db)
      | some a ↦ change_address_of address now a db
    ]
