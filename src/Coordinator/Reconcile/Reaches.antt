-- ===== src/Coordinator/Reconcile/Reaches.antt =====
-- Reconciliation is a sequence of the store calls of which the safety of reservations speaks.
use juno_exchange_gateway.Prelude.{
  ℕ, ◌≡◌, ◌≢◌, refl, Bool, true, false, none, some, String, arith, Bool-cases, Option-cases, inl,
  inr, if◌then◌else◌,
}
use juno_exchange_gateway.State.{
  State, reserved, broadcast, mined, orphaned, expired_pending_reconciliation, released, final,
  same_state,
}
use juno_exchange_gateway.Domain.Network.{Transaction}
use juno_exchange_gateway.Db.{Attempt, Db}
use juno_exchange_gateway.Safety.Steps.{permitted}
use juno_exchange_gateway.Safety.Reach.{Reach, here}
use juno_exchange_gateway.Coordinator.Request.{Config}
use juno_exchange_gateway.Coordinator.Signing.{mark_with}
use juno_exchange_gateway.Coordinator.Signing.Reaches.{mark-Reach}
use juno_exchange_gateway.Coordinator.Reconcile.{
  Answers, past_expiry, transition, reconcile_final, reconcile_expired, expire_then_release,
  on_orphaned, on_found, reconcile_attempt,
}

module _ (network : String) (before : Db) (cfg : Config) (w : Answers) (now : ℕ) where
  transition-Reach :
      (a : Attempt) (s : State) (release : Bool) (db : Db)
      → permitted s release ≡ true
      → s ≢ reserved
      → Reach network before db
      → Reach network before (transition a s release now db)
  unfolding transition mark_with
  transition-Reach a s release db p n r = elim (Bool-cases (same_state a.state s)) [
    | inl e ↦ rw (e, if◌then◌else◌) r
    | inr e ↦
        rw (e, if◌then◌else◌)
          (mark-Reach a.attempt_id s "" "" false release now p (λ e. absurd (n e)) r)
  ]

  reconcile_expired-Reach :
      (a : Attempt) (db : Db)
      → Reach network before db
      → Reach network before (reconcile_expired cfg a w now db)
  unfolding reconcile_expired
  reconcile_expired-Reach a db r =
      let t = transition-Reach a released true db refl (λ e. absurd (cc e)) r in
      ground (arith, t, r)

  reconcile_final-Reach :
      (a : Attempt) (db : Db)
      → Reach network before db
      → Reach network before (reconcile_final cfg a w now db)
  unfolding reconcile_final
  reconcile_final-Reach a db r =
      let t = transition-Reach a final true db refl (λ e. absurd (cc e)) r in ground (arith, t, r)

  expire_then_release-Reach :
      (a : Attempt) (db : Db)
      → Reach network before db
      → Reach network before (expire_then_release cfg a w now db)
  unfolding expire_then_release
  expire_then_release-Reach a db r =
      reconcile_expired-Reach _ _
        (transition-Reach a expired_pending_reconciliation false db refl (λ e. absurd (cc e)) r)

  on_orphaned-Reach :
      (a : Attempt) (db : Db)
      → Reach network before db
      → Reach network before (on_orphaned cfg a w now db)
  unfolding on_orphaned
  on_orphaned-Reach a db r =
      let t = transition-Reach a orphaned false db refl (λ e. absurd (cc e)) r in
      elim (Bool-cases (past_expiry cfg a w.expiry_tip)) [
        | inl e ↦ rw (e, if◌then◌else◌) (expire_then_release-Reach _ _ t)
        | inr e ↦ rw (e, if◌then◌else◌) (reconcile_expired-Reach _ _ t)
      ]

  on_found-Reach :
      (a : Attempt) (tx : Transaction) (db : Db)
      → Reach network before db
      → Reach network before (on_found cfg a w tx now db)
  unfolding on_found
  on_found-Reach a tx db r =
      let x = expire_then_release-Reach a db r in
      let b = transition-Reach a broadcast false db refl (λ e. absurd (cc e)) r in
      let m = transition-Reach a mined false db refl (λ e. absurd (cc e)) r in
      let f = reconcile_final-Reach a db r in
      let o = on_orphaned-Reach a db r in ground (arith, x, b, m, f, o, r)

  reconcile_walk-Reach :
      (a : Attempt) (db : Db)
      → Reach network before db
      → Reach network before (reconcile_attempt cfg a w now db)
  unfolding reconcile_attempt
  reconcile_walk-Reach a db r = elim (Option-cases w.lookup) [
    | inl n ↦ rw (n, reconcile_attempt) r
    | inr (none, n) ↦ elim (Bool-cases (past_expiry cfg a w.expiry_tip)) [
      | inl e ↦ rw (n, e, reconcile_attempt) (expire_then_release-Reach a db r)
      | inr e ↦ rw (n, e, reconcile_attempt) (reconcile_expired-Reach a db r)
    ]
    | inr (some tx, n) ↦ rw (n, reconcile_attempt) (on_found-Reach a tx db r)
  ]

-- Reconciling an attempt is a sequence of the store calls that keep notes apart, whatever the node
-- and the scanner answer: it gives notes back only with a terminal state.
pub reconcile_attempt-Reach :
    (network : String) (cfg : Config) (w : Answers) (now : ℕ) (a : Attempt) (db : Db)
    → Reach network db (reconcile_attempt cfg a w now db)
reconcile_attempt-Reach network cfg w now a db = reconcile_walk-Reach network db cfg w now a db here
