-- ===== src/Coordinator/Reconcile/Progress.antt =====
-- Notes are given back once it is proved that they may be.
use juno_exchange_gateway.Prelude.{
  ℕ, ◌≡◌, ◌≢◌, refl, true, false, none, some, String, arith, ltb, ◌+◌, ◌≤◌, Bool-cases, inl, inr,
  ap, sym,
}
use juno_exchange_gateway.State.{
  expired_pending_reconciliation, released, same_state, allowed_attempt_transition,
  safe_reservation_release_transition, terminal_attempt_state,
}
use juno_exchange_gateway.Domain.Network.{NodeTip}
use juno_exchange_gateway.Domain.Notes.{WalletNoteStatuses}
use juno_exchange_gateway.Db.{Attempt, Db, find_attempt, owner, update_attempt, delete_reservations}
use juno_exchange_gateway.Db.Rows.{find_attempt-update_self}
use juno_exchange_gateway.Db.Owners.{owner-delete_self}
use juno_exchange_gateway.Attempts.Mark.{Mark, marked, mark_for, mark_attempt_state, is_refresh}
use juno_exchange_gateway.Coordinator.Request.{Config}
use juno_exchange_gateway.Coordinator.Reconcile.{
  Answers, scanner_proof, expiry_valid, past_expiry, all_unspent, transition, reconcile_expired,
  expire_then_release, reconcile_attempt,
}

-- The row is released, and holds no note.
abbrev pub IsReleased : Attempt → Db → Type 0
IsReleased a db =
    ((b : Attempt) × (find_attempt a.attempt_id db.attempts ≡ some b) × (b.state ≡ released))
    × ((network wallet note : String)
        → owner network wallet note db.reservations ≢ some a.attempt_id)

release_mark : Mark
release_mark = record {
  state = some released;
  code = "";
  message = "";
  retryable = false;
  release = true;
}

mark_for-update :
    (a : Attempt) (now : ℕ) (db : Db)
    → a.state ≡ expired_pending_reconciliation
    → ((mark_for released release_mark now a db).1.attempts
        ≡ update_attempt a.attempt_id (marked released release_mark now) db.attempts)
      × ((mark_for released release_mark now a db).1.reservations
          ≡ delete_reservations a.attempt_id db.reservations)
unfolding mark_for is_refresh release_mark allowed_attempt_transition
    safe_reservation_release_transition terminal_attempt_state
mark_for-update a now db e = ground (arith, e)

mark-IsReleased :
    (a : Attempt) (now : ℕ) (db : Db)
    → find_attempt a.attempt_id db.attempts ≡ some a
    → a.state ≡ expired_pending_reconciliation
    → IsReleased a (mark_attempt_state a.attempt_id release_mark now db).1
unfolding release_mark mark_attempt_state
mark-IsReleased a now db f e =
    let m = mark_for-update a now db e in
    rw (f, m.0, m.1, mark_attempt_state)
      (
        (
          marked released release_mark now a,
          find_attempt-update_self a.attempt_id (marked released release_mark now) db.attempts a
              (λ x. refl) f,
          refl,
        ),
        λ network wallet note. owner-delete_self a.attempt_id network wallet note db.reservations,
      )

reconcile_expired-IsReleased :
    (cfg : Config) (a : Attempt) (w : Answers) (now : ℕ) (db : Db) (tip : NodeTip)
    (notes : WalletNoteStatuses)
    → find_attempt a.attempt_id db.attempts ≡ some a
    → a.state ≡ expired_pending_reconciliation
    → expiry_valid a ≡ true
    → scanner_proof cfg a w ≡ some (tip, notes)
    → a.expiry_height + cfg.default_confirmations ≤ tip.height
    → all_unspent notes.statuses ≡ true
    → IsReleased a (reconcile_expired cfg a w now db)
unfolding reconcile_expired transition release_mark
reconcile_expired-IsReleased cfg a w now db tip notes f e v p deep u =
    let l : ltb tip.height (a.expiry_height + cfg.default_confirmations) ≡ false = ground arith in
    let n : same_state a.state released ≡ false = ground arith in
    rw (v, p, l, u, n, reconcile_expired, transition) (mark-IsReleased a now db f e)

-- an attempt that has expired already is not marked again
expire_again :
    (cfg : Config) (a : Attempt) (w : Answers) (now : ℕ) (db : Db)
    → a.state ≡ expired_pending_reconciliation
    → expire_then_release cfg a w now db
      ≡ reconcile_expired cfg (record a { state = expired_pending_reconciliation }) w now db
unfolding expire_then_release transition
expire_again cfg a w now db e =
    let n : same_state a.state expired_pending_reconciliation ≡ true = ground arith in
    ground (arith, n)

-- Reconciliation does release an attempt that waits for it, and gives all its notes back: the attempt
-- has expired, the node does not know its transaction, its expiry is set, and the scanner proves at a
-- height at least the configured confirmations past it that every note is unspent.
pub reconcile_attempt-IsReleased :
    (cfg : Config) (a : Attempt) (w : Answers) (now : ℕ) (db : Db) (tip : NodeTip)
    (notes : WalletNoteStatuses)
    → find_attempt a.attempt_id db.attempts ≡ some a
    → a.state ≡ expired_pending_reconciliation
    → w.lookup ≡ some none
    → expiry_valid a ≡ true
    → scanner_proof cfg a w ≡ some (tip, notes)
    → a.expiry_height + cfg.default_confirmations ≤ tip.height
    → all_unspent notes.statuses ≡ true
    → IsReleased a (reconcile_attempt cfg a w now db)
unfolding reconcile_attempt
reconcile_attempt-IsReleased cfg a w now db tip notes f e none_found v p deep u =
    let r = reconcile_expired-IsReleased cfg a w now db tip notes f e v p deep u in
    let i : record a { state = expired_pending_reconciliation } ≡ a =
      ap (λ x. record a { state = x }) (sym e) in
    elim (Bool-cases (past_expiry cfg a w.expiry_tip)) [
      | inl x ↦ rw (none_found, x, reconcile_attempt, expire_again cfg a w now db e, i) r
      | inr x ↦ rw (none_found, x, reconcile_attempt) r
    ]
