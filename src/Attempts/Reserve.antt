-- ===== src/Attempts/Reserve.antt =====
-- `ReserveAttemptPlan` of internal/storage/sqlite/attempts.go.
pub mod Loop
pub mod Sorting
use juno_exchange_gateway.Prelude.{
  ℕ, Bool, true, false, ◌||◌, ◌&&◌, Option, none, some, List, [], ◌∷◌, String, str_eq, str_lt,
  is_empty, length, ◌==◌, if◌then◌else◌,
}
use juno_exchange_gateway.State.{State, planning, reserved, same_state}
use juno_exchange_gateway.Db.{
  Attempt, Reservation, Db, Outcome, ok, err, incomplete, state_conflict, note_reservation,
  database, find_attempt, update_attempt, owner, insert_attempt_event,
}

-- `sort.Strings`
insert_sorted : String → List String → List String
insert_sorted x [] = x ∷ []
insert_sorted x (y ∷ ys) = if str_lt y x then y ∷ insert_sorted x ys else x ∷ y ∷ ys

unfoldable pub sort_strings : List String → List String
unfolding insert_sorted
sort_strings [] = []
sort_strings (x ∷ xs) = insert_sorted x (sort_strings xs)

-- on a sorted list: no note ID is empty, and none equals the one before it
unique_after : String → List String → Bool
unique_after previous [] = true
unique_after previous (x ∷ xs) = elim (is_empty x || str_eq x previous) [
  | true ↦ false
  | false ↦ unique_after x xs
]

unfoldable pub notes_unique : List String → Bool
unfolding unique_after
notes_unique [] = true
notes_unique (x ∷ xs) = elim (is_empty x) [ true ↦ false | false ↦ unique_after x xs ]

-- What the coordinator passes for a plan.
pub record Plan : Type 0 where
  pub plan_json : String
  pub plan_digest : String
  pub fee_zat : String
  pub expiry_height : ℕ
  pub note_ids : List String

plan_incomplete : Plan → Bool
plan_incomplete p =
    is_empty p.plan_json || is_empty p.plan_digest || is_empty p.fee_zat || length p.note_ids == 0

-- `INSERT OR IGNORE`: a note that has a row already leaves the table as it is
insert_or_ignore : Reservation → List Reservation → Option (List Reservation)
insert_or_ignore r rows = elim (owner r.network r.wallet_id r.note_id rows) [
  | none ↦ some (r ∷ rows)
  | some _ ↦ none
]

-- The loop over the note IDs, `none` once a note could not be reserved.
unfoldable pub reserve_notes :
    (String → Reservation) → List String → List Reservation → Option (List Reservation)
unfolding insert_or_ignore
reserve_notes row [] rows = some rows
reserve_notes row (n ∷ ns) rows = elim (insert_or_ignore (row n) rows) [
  | none ↦ none
  | some rows' ↦ reserve_notes row ns rows'
]

unfoldable pub with_plan : Plan → List String → ℕ → Attempt → Attempt
with_plan p notes now a = record a {
  state = reserved;
  plan_json = p.plan_json;
  plan_digest = p.plan_digest;
  fee_zat = p.fee_zat;
  expiry_height = p.expiry_height;
  selected_note_ids = notes;
  error_code = "";
  error_message = "";
  error_retryable = false;
  updated_at = now;
}

abbrev pub reservation_row : String → Plan → ℕ → Attempt → String → Reservation
reservation_row network p now a note = record {
  network = network;
  wallet_id = a.wallet_id;
  note_id = note;
  attempt_id = a.attempt_id;
  plan_digest = p.plan_digest;
  created_at = now;
}

-- the transaction, once the attempt is read; `notes` is sorted
reserve_for : String → Plan → List String → ℕ → Attempt → Db → Outcome (Unit {0}) × Db
reserve_for network p notes now a db =
    if same_state a.state reserved && str_eq a.plan_digest p.plan_digest
    then (ok tt, db)
    else if same_state a.state planning
    then elim (reserve_notes (reservation_row network p now a) notes db.reservations) [
      | none ↦ (err note_reservation, db)
      | some rows ↦ (
        ok tt,
        record db {
          attempts = update_attempt a.attempt_id (with_plan p notes now) db.attempts;
          reservations = rows;
          events = insert_attempt_event a.attempt_id reserved none now db.events;
        },
      )
    ]
    else (err state_conflict, db)

unfoldable pub reserve_attempt_plan : String → String → Plan → ℕ → Db → Outcome (Unit {0}) × Db
unfolding plan_incomplete reserve_for
reserve_attempt_plan id network p now db =
    if plan_incomplete p
    then (err incomplete, db)
    else let notes = sort_strings p.note_ids in
      if notes_unique notes
      then elim (find_attempt id db.attempts) [
        | none ↦ (err database, db)
        | some a ↦ reserve_for network p notes now a db
      ]
      else (err incomplete, db)
