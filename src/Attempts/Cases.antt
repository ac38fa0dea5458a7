-- ===== src/Attempts/Cases.antt =====
-- What each operation may leave: the tables as they were, or one row changed in a known way.
-- A property of tables is checked at those two.
use juno_exchange_gateway.Prelude.{
  ℕ, ◌≡◌, ◌⊎◌, inl, inr, trim_space, true, none, some, List, ◌∷◌, String, arith, Option-cases,
  if◌then◌else◌,
}
use juno_exchange_gateway.State.{
  State, planning, reserved, signing, signing_unknown, allowed_attempt_transition,
  safe_reservation_release_transition,
}
use juno_exchange_gateway.State.Graph.{same_state_eq}
use juno_exchange_gateway.Db.{
  Attempt, Reservation, Db, find_attempt, find_scoped, update_attempt, delete_reservations,
  insert_attempt_event,
}
use juno_exchange_gateway.Db.Rows.{find_attempt-id}
use juno_exchange_gateway.Attempts.Claim.{
  inserted, claim_attempt, set_attempt_change_address, with_change_address,
}
use juno_exchange_gateway.Attempts.Reserve.{
  Plan, sort_strings, with_plan, reservation_row, reserve_notes, reserve_attempt_plan,
}
use juno_exchange_gateway.Attempts.Signing.{
  Signed, to_signing, to_signed, begin_attempt_signing, complete_attempt_signing,
}
use juno_exchange_gateway.Attempts.Mark.{
  Mark, touch, marked, to_cancelled, mark_attempt_state, cancel_attempt,
}

-- the row that was read is the row of its own ID
pub own_row :
    (id : String) (rows : List Attempt) (a : Attempt)
    → find_attempt id rows ≡ some a
    → find_attempt a.attempt_id rows ≡ some a
own_row id rows a h = simp (find_attempt-id id rows a h) h

module _ (P : Db → Type 0) (db : Db) (same : P db) where
  pub set_attempt_change_address_cases :
      (id raw : String) (now : ℕ)
      → ((a : Attempt)
          → find_attempt a.attempt_id db.attempts ≡ some a
          → a.state ≡ planning
          → P (record db {
            attempts =
                update_attempt a.attempt_id (with_change_address (trim_space raw) now) db.attempts;
          }))
      → P (set_attempt_change_address id raw now db).1
  unfolding set_attempt_change_address
  set_attempt_change_address_cases id raw now moved =
      elim (Option-cases (find_attempt id db.attempts)) [
        | inl e ↦ rw (e, set_attempt_change_address) (ground arith)
        | inr (a, e) ↦
            rw (e, set_attempt_change_address)
              (ground (arith, moved a (own_row id db.attempts a e), same_state_eq a.state planning))
      ]

  pub begin_attempt_signing_cases :
      (id : String) (now : ℕ)
      → ((a : Attempt)
          → find_attempt a.attempt_id db.attempts ≡ some a
          → a.state ≡ reserved
          → P (record db {
            attempts = update_attempt a.attempt_id (to_signing now) db.attempts;
            events = insert_attempt_event a.attempt_id signing none now db.events;
          }))
      → P (begin_attempt_signing id now db).1
  unfolding begin_attempt_signing
  begin_attempt_signing_cases id now moved = elim (Option-cases (find_attempt id db.attempts)) [
    | inl e ↦ rw (e, begin_attempt_signing) same
    | inr (a, e) ↦
        rw (e, begin_attempt_signing) (ground (arith, moved a (own_row id db.attempts a e)))
  ]

  pub complete_attempt_signing_cases :
      (id : String) (r : Signed) (now : ℕ)
      → ((a : Attempt)
          → find_attempt a.attempt_id db.attempts ≡ some a
          → (a.state ≡ signing) ⊎ (a.state ≡ signing_unknown)
          → P (record db {
            attempts = update_attempt a.attempt_id (to_signed r now) db.attempts;
            events = insert_attempt_event a.attempt_id State.signed none now db.events;
          }))
      → P (complete_attempt_signing id r now db).1
  unfolding complete_attempt_signing
  complete_attempt_signing_cases id r now moved =
      elim (Option-cases (find_attempt id db.attempts)) [
        | inl e ↦ rw (e, complete_attempt_signing) same
        | inr (a, e) ↦
            rw (e, complete_attempt_signing) (ground (arith, moved a (own_row id db.attempts a e)))
      ]

  pub cancel_attempt_cases :
      (id : String) (now : ℕ)
      → ((a : Attempt)
          → find_attempt a.attempt_id db.attempts ≡ some a
          → (a.state ≡ planning) ⊎ (a.state ≡ reserved)
          → P (record db {
            attempts = update_attempt a.attempt_id (to_cancelled now) db.attempts;
            reservations = delete_reservations a.attempt_id db.reservations;
            events = insert_attempt_event a.attempt_id State.cancelled none now db.events;
          }))
      → P (cancel_attempt id now db).1
  unfolding cancel_attempt
  cancel_attempt_cases id now moved = elim (Option-cases (find_attempt id db.attempts)) [
    | inl e ↦ rw (e, cancel_attempt) same
    | inr (a, e) ↦ rw (e, cancel_attempt) (ground (arith, moved a (own_row id db.attempts a e)))
  ]

  pub mark_attempt_state_cases :
      (id : String) (m : Mark) (now : ℕ)
      → ((a : Attempt) (s : State)
          → find_attempt id db.attempts ≡ some a
          → m.state ≡ some s
          → a.state ≡ s
          → P (record db { attempts = update_attempt a.attempt_id (touch now) db.attempts }))
      → ((a : Attempt) (s : State)
          → find_attempt id db.attempts ≡ some a
          → m.state ≡ some s
          → allowed_attempt_transition a.state s ≡ true
          → (m.release ≡ true → safe_reservation_release_transition a.state s ≡ true)
          → P (record db {
            attempts = update_attempt a.attempt_id (marked s m now) db.attempts;
            reservations =
                if m.release
                then delete_reservations a.attempt_id db.reservations
                else db.reservations;
            events = insert_attempt_event a.attempt_id s (some (m.code, m.retryable)) now db.events;
          }))
      → P (mark_attempt_state id m now db).1
  unfolding mark_attempt_state
  mark_attempt_state_cases id m now refreshed moved = elim (Option-cases m.state) [
    | inl u ↦ rw (u, mark_attempt_state) same
    | inr (s, u) ↦ elim (Option-cases (find_attempt id db.attempts)) [
      | inl e ↦ rw (u, e, mark_attempt_state) same
      | inr (a, e) ↦
          rw (u, e, mark_attempt_state)
            (ground (arith, refreshed a s e u, moved a s e u, same_state_eq a.state s))
    ]
  ]

  pub reserve_attempt_plan_cases :
      (id network : String) (p : Plan) (now : ℕ)
      → ((a : Attempt) (rows : List Reservation)
          → find_attempt a.attempt_id db.attempts ≡ some a
          → a.state ≡ planning
          → reserve_notes
              (reservation_row network p now a)
              (sort_strings p.note_ids)
              db.reservations
            ≡ some rows
          → P (record db {
            attempts =
                update_attempt a.attempt_id (with_plan p (sort_strings p.note_ids) now) db.attempts;
            reservations = rows;
            events = insert_attempt_event a.attempt_id reserved none now db.events;
          }))
      → P (reserve_attempt_plan id network p now db).1
  unfolding reserve_attempt_plan
  reserve_attempt_plan_cases id network p now moved =
      elim (Option-cases (find_attempt id db.attempts)) [
        | inl e ↦ rw (e, reserve_attempt_plan) (ground arith)
        | inr (a, e) ↦
            elim (Option-cases (
              reserve_notes (reservation_row network p now a) (sort_strings p.note_ids)
                db.reservations)) [
                  | inl c ↦ rw (e, c, reserve_attempt_plan) (ground arith)
                  | inr (rows, c) ↦
                      rw (e, c, reserve_attempt_plan)
                        (ground (
                          arith,
                          moved a rows (own_row id db.attempts a e),
                          same_state_eq a.state planning,
                        ))
                ]
      ]

  pub claim_attempt_cases :
      (candidate : Attempt) (clock : ℕ)
      → ((now : ℕ)
          → find_attempt candidate.attempt_id db.attempts ≡ none
          → find_scoped candidate.scoped_idempotency_key db.attempts ≡ none
          → P (record db {
            attempts = inserted candidate now ∷ db.attempts;
            events = insert_attempt_event candidate.attempt_id planning none now db.events;
          }))
      → P (claim_attempt candidate clock db).1
  unfolding claim_attempt
  claim_attempt_cases candidate clock moved =
      ground (arith, moved clock, moved candidate.created_at)
