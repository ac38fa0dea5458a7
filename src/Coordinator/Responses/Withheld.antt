-- ===== src/Coordinator/Responses/Withheld.antt =====
-- Signed material is not shown past its expiry, nor to others.
use juno_exchange_gateway.Prelude.{
  ◌≡◌, ◌≢◌, ◌≤◌, Bool, true, Option, some, String, str_eq_iff, arith, Option-cases, inl, inr,
}
use juno_exchange_gateway.State.{released, expired_pending_reconciliation}
use juno_exchange_gateway.Domain.Network.{NodeTip}
use juno_exchange_gateway.Db.{Attempt, Db, find_attempt}
use juno_exchange_gateway.Coordinator.Request.{Config}
use juno_exchange_gateway.Coordinator.Reconcile.{tip_ok}
use juno_exchange_gateway.Coordinator.Responses.{
  View, shown, attempt_view, expiry_sensitive, attempt_for_response, show_attempt,
}

-- The transaction may still be mined, by a tip of the node itself.
pub record Usable (cfg : Config) (tip : Option NodeTip) (a : Attempt) : Type 0 where
  pub at : NodeTip
  pub tip_eq : tip ≡ some at
  pub tip_right : tip_ok cfg at ≡ true
  pub in_time : at.height ≤ a.expiry_height

-- What is shown of an attempt is shown to the principal that owns it. Its transaction is not shown
-- once it is expired or released, and while the attempt is signed, broadcast or orphaned it is shown
-- only if the node's own synchronised tip is not past the expiry.
pub show_attempt_sound :
    (id_ok : String → Bool) (cfg : Config) (tip : Option NodeTip) (principal id : String) (db : Db)
    (v : View)
    → show_attempt id_ok cfg tip principal id db ≡ shown v
    → (a : Attempt) × (find_attempt id db.attempts ≡ some a)
      × (a.principal_name ≡ principal)
      × (v.raw_tx_hex ≢ ""
          → (a.state ≢ expired_pending_reconciliation)
            × (a.state ≢ released)
            × (expiry_sensitive a.state ≡ true → Usable cfg tip a))
unfolding show_attempt attempt_for_response attempt_view expiry_sensitive
show_attempt_sound id_ok cfg tip principal id db v h =
    elim (Option-cases (find_attempt id db.attempts)) [
      | inl e ↦ absurd (ground arith)
      | inr (a, e) ↦ (
        a,
        e,
        ground (arith, str_eq_iff a.principal_name principal),
        λ n. (
          ground arith,
          ground arith,
          λ s. elim (Option-cases tip) [
            | inl t ↦ absurd (ground arith)
            | inr (t, g) ↦ record {
              at = t;
              tip_eq = g;
              tip_right = ground arith;
              in_time = ground arith;
            }
          ],
        ),
      )
    ]
