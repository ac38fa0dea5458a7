-- ===== src/Safety/Invariant.antt =====
-- The invariant of attempts and reservations.
use juno_exchange_gateway.Prelude.{◌≡◌, Bool, true, false, some, String, mem, some}
use juno_exchange_gateway.State.{
  State, reserved, signing, signing_unknown, signed, broadcast, mined, orphaned,
  expired_pending_reconciliation,
}
use juno_exchange_gateway.Db.{Attempt, Db, find_attempt, owner}
use juno_exchange_gateway.Db.Owners.{IsKeyed}

-- the states in which the notes of the plan are held
abbrev pub holds : State → Bool
holds reserved = true
holds signing = true
holds signing_unknown = true
holds signed = true
holds broadcast = true
holds mined = true
holds orphaned = true
holds expired_pending_reconciliation = true
holds _ = false

-- A reservation is backed by an attempt that holds the note.
pub record IsBacked (network : String) (db : Db) (net wallet note id : String) : Type 0 where
  pub by : Attempt
  pub found : find_attempt id db.attempts ≡ some by
  pub holding : holds by.state ≡ true
  pub net_eq : net ≡ network
  pub wallet_eq : wallet ≡ by.wallet_id
  pub selected : mem note by.selected_note_ids ≡ true

pub record Inv (network : String) (db : Db) : Type 0 where
  pub keyed : IsKeyed db.reservations
  pub held :
      (id : String) (a : Attempt) (note : String)
      → find_attempt id db.attempts ≡ some a
      → holds a.state ≡ true
      → mem note a.selected_note_ids ≡ true
      → owner network a.wallet_id note db.reservations ≡ some id
  pub backed :
      (net wallet note id : String)
      → owner net wallet note db.reservations ≡ some id
      → IsBacked network db net wallet note id

-- Under the invariant two attempts of one wallet that are past planning and not over share no note.
pub disjoint :
    (network note id other : String) (db : Db) (a b : Attempt)
    → Inv network db
    → find_attempt id db.attempts ≡ some a
    → find_attempt other db.attempts ≡ some b
    → holds a.state ≡ true
    → holds b.state ≡ true
    → a.wallet_id ≡ b.wallet_id
    → mem note a.selected_note_ids ≡ true
    → mem note b.selected_note_ids ≡ true
    → id ≡ other
disjoint network note id other db a b v fa fb ha hb w ma mb =
    let oa : owner network b.wallet_id note db.reservations ≡ some id =
      rw w at (v.held id a note fa ha ma) in
    cc (oa, v.held other b note fb hb mb)
