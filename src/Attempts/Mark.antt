-- ===== src/Attempts/Mark.antt =====
-- `MarkAttemptState` and `CancelAttempt` of internal/storage/sqlite/attempts.go.
use juno_exchange_gateway.Prelude.{
  ℕ, Bool, true, false, ◌||◌, ◌&&◌, not, Option, none, some, String, str_eq, if◌then◌else◌,
}
use juno_exchange_gateway.State.{
  State, planning, reserved, cancelled, same_state, allowed_attempt_transition,
  safe_reservation_release_transition,
}
use juno_exchange_gateway.Db.{
  Attempt, Db, Outcome, ok, err, incomplete, state_conflict, database, find_attempt, update_attempt,
  delete_reservations, insert_attempt_event,
}

-- The arguments after the attempt's ID. `state` is `none` for the empty text.
pub record Mark : Type 0 where
  pub state : Option State
  pub code : String
  pub message : String
  pub retryable : Bool
  pub release : Bool

abbrev same_bool : Bool → Bool → Bool
same_bool true b = b
same_bool false b = not b

unfoldable pub touch : ℕ → Attempt → Attempt
touch now a = record a { updated_at = now }

unfoldable pub marked : State → Mark → ℕ → Attempt → Attempt
marked state m now a = record a {
  state = state;
  error_code = m.code;
  error_message = m.message;
  error_retryable = m.retryable;
  updated_at = now;
}

-- nothing but the time would change
unfoldable pub is_refresh : State → Mark → Attempt → Bool
is_refresh state m a =
    same_state a.state state
    && str_eq a.error_code m.code
    && str_eq a.error_message m.message
    && same_bool a.error_retryable m.retryable

unfoldable pub mark_for : State → Mark → ℕ → Attempt → Db → Outcome (Unit {0}) × Db
mark_for state m now a db =
    if not (allowed_attempt_transition a.state state)
    then (err state_conflict, db)
    else if m.release && not (safe_reservation_release_transition a.state state)
    then (err state_conflict, db)
    else if is_refresh state m a
    then (ok tt, record db { attempts = update_attempt a.attempt_id (touch now) db.attempts })
    else (
      ok tt,
      record db {
        attempts = update_attempt a.attempt_id (marked state m now) db.attempts;
        reservations =
            if m.release then delete_reservations a.attempt_id db.reservations else db.reservations;
        events = insert_attempt_event a.attempt_id state (some (m.code, m.retryable)) now db.events;
      },
    )

unfoldable pub mark_attempt_state : String → Mark → ℕ → Db → Outcome (Unit {0}) × Db
unfolding mark_for is_refresh touch marked
mark_attempt_state id m now db = elim m.state [
  | none ↦ (err incomplete, db)
  | some state ↦ elim (find_attempt id db.attempts) [
    | none ↦ (err database, db)
    | some a ↦ mark_for state m now a db
  ]
]

unfoldable pub to_cancelled : ℕ → Attempt → Attempt
to_cancelled now a = record a {
  state = cancelled;
  error_code = "";
  error_message = "";
  error_retryable = false;
  updated_at = now;
}

-- The attempt that is returned keeps the error fields that were read, unlike the row.
cancel_for : ℕ → Attempt → Db → Outcome Attempt × Db
cancel_for now a db =
    if same_state a.state cancelled
    then (ok a, db)
    else if same_state a.state planning || same_state a.state reserved
    then (
      ok (record a { state = cancelled; updated_at = now }),
      record db {
        attempts = update_attempt a.attempt_id (to_cancelled now) db.attempts;
        reservations = delete_reservations a.attempt_id db.reservations;
        events = insert_attempt_event a.attempt_id cancelled none now db.events;
      },
    )
    else (err state_conflict, db)

unfoldable pub cancel_attempt : String → ℕ → Db → Outcome Attempt × Db
unfolding cancel_for to_cancelled
cancel_attempt id now db = elim (find_attempt id db.attempts) [
  | none ↦ (err database, db)
  | some a ↦ cancel_for now a db
]
