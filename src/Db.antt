-- ===== src/Db.antt =====
-- The tables of the attempt store (internal/storage/sqlite/sqlite.go, schema version 4) and its row
-- types (internal/storage/storage.go). A nullable text column that the code reads through
-- `sql.NullString.String` or `COALESCE(…,'')` is a text, empty for NULL. JSON documents are texts,
-- times are numbers, and heights are numbers, since they come from an unsigned field of the plan.
pub mod Rows
pub mod Owners
use juno_exchange_gateway.Prelude.{
  ℕ, Bool, true, false, ◌&&◌, Option, none, some, List, [], ◌∷◌, String, str_eq, not, if◌then◌else◌,
}
use juno_exchange_gateway.State.{State}

pub record Attempt : Type 0 where
  pub attempt_id : String
  pub scoped_idempotency_key : String
  pub request_digest : String
  pub principal_name : String
  pub wallet_id : String
  pub approval_reference : String
  pub request_json : String
  pub state : State
  pub change_address : String
  pub plan_json : String
  pub plan_digest : String
  pub fee_zat : String
  pub expiry_height : ℕ
  pub selected_note_ids : List String
  pub txid : String
  pub raw_tx_hex : String
  pub orchard_output_action_indices : List ℕ
  pub orchard_change_action_index : Option ℕ
  pub error_code : String
  pub error_message : String
  pub error_retryable : Bool
  pub created_at : ℕ
  pub updated_at : ℕ

-- a row of `active_note_reservations`, whose primary key is (network, wallet_id, note_id)
pub record Reservation : Type 0 where
  pub network : String
  pub wallet_id : String
  pub note_id : String
  pub attempt_id : String
  pub plan_digest : String
  pub created_at : ℕ

-- a row of `transaction_attempt_events`; the detail is the error code and its retry flag
pub record AttemptEvent : Type 0 where
  pub attempt_id : String
  pub state : State
  pub detail : Option (String × Bool)
  pub created_at : ℕ

pub record Db : Type 0 where
  pub wallets : List String
  pub attempts : List Attempt
  pub reservations : List Reservation
  pub events : List AttemptEvent

-- `database` is a statement that SQLite refuses: a violated key, or a row that is not there.
pub data StoreError : Type 0 where
  incomplete state_conflict note_reservation attempt_list_limit invalid_limit : StoreError
  database : StoreError

pub data Outcome {ℓ} (A : Type ℓ) : Type ℓ where
  ok : A → Outcome A
  err : StoreError → Outcome A

-- `SELECT … WHERE attempt_id=?`
unfoldable pub find_attempt : String → List Attempt → Option Attempt
find_attempt id [] = none
find_attempt id (a ∷ rows) = if str_eq a.attempt_id id then some a else find_attempt id rows

-- `SELECT … WHERE scoped_idempotency_key=?`
unfoldable pub find_scoped : String → List Attempt → Option Attempt
find_scoped key [] = none
find_scoped key (a ∷ rows) =
    if str_eq a.scoped_idempotency_key key then some a else find_scoped key rows

-- `UPDATE transaction_attempts SET … WHERE attempt_id=?`
unfoldable pub update_attempt : String → (Attempt → Attempt) → List Attempt → List Attempt
update_attempt id f [] = []
update_attempt id f (a ∷ rows) =
    (if str_eq a.attempt_id id then f a else a) ∷ update_attempt id f rows

unfoldable pub same_key : Reservation → String → String → String → Bool
same_key r network wallet note =
    str_eq r.network network && str_eq r.wallet_id wallet && str_eq r.note_id note

-- the attempt that holds a note
unfoldable pub owner : String → String → String → List Reservation → Option String
owner network wallet note [] = none
owner network wallet note (r ∷ rows) =
    if same_key r network wallet note then some r.attempt_id else owner network wallet note rows

-- `DELETE FROM active_note_reservations WHERE attempt_id=?`
unfoldable pub delete_reservations : String → List Reservation → List Reservation
delete_reservations id [] = []
delete_reservations id (r ∷ rows) =
    let rest = delete_reservations id rows in if str_eq r.attempt_id id then rest else r ∷ rest

-- `insertAttemptEvent`
unfoldable pub insert_attempt_event :
    String → State → Option (String × Bool) → ℕ → List AttemptEvent → List AttemptEvent
insert_attempt_event id state detail now events =
    record { attempt_id = id; state = state; detail = detail; created_at = now } ∷ events
