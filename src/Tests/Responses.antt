-- ===== src/Tests/Responses.antt =====
-- A signed attempt shown to its owner before it expires.
use juno_exchange_gateway.Coordinator.Reconcile.{expiry_valid, tip_ok}
use juno_exchange_gateway.Prelude.{◌≡◌, ◌≢◌, refl, Bool, true, false, some, String, str_eq}
use juno_exchange_gateway.State.{released, expired_pending_reconciliation, State}
use juno_exchange_gateway.Domain.Network.{NodeTip, node_chain}
use juno_exchange_gateway.Db.{Attempt, find_attempt}
use juno_exchange_gateway.Coordinator.Responses.{
  View, shown, attempt_view, expiry_sensitive, show_attempt, attempt_for_response,
}
use juno_exchange_gateway.Coordinator.Responses.Withheld.{Usable, show_attempt_sound}
use juno_exchange_gateway.Tests.Sample.{config}
use juno_exchange_gateway.Tests.Proof.{row, db_of}

abbrev early : NodeTip
early = record {
  network = "regtest";
  height = 100;
  hash = "h";
  initial_block_download = false;
  block_time = 7;
  headers = 130;
  progress_in_range = true;
}

abbrev any_id : String → Bool
any_id id = true

abbrev view : View
view = attempt_view (record (row State.signed) { raw_tx_hex = "" })

view_shown : show_attempt any_id config (some early) "ops" "txn_1" (db_of State.signed) ≡ shown view
unfolding show_attempt find_attempt str_eq attempt_for_response expiry_sensitive expiry_valid tip_ok
    node_chain
view_shown = refl

show_attempt_sound_example :
    (a : Attempt) × (find_attempt "txn_1" (db_of State.signed).attempts ≡ some a)
    × (a.principal_name ≡ "ops")
    × (view.raw_tx_hex ≢ ""
        → (a.state ≢ expired_pending_reconciliation)
          × (a.state ≢ released)
          × (expiry_sensitive a.state ≡ true → Usable config (some early) a))
show_attempt_sound_example =
    show_attempt_sound any_id config (some early) "ops" "txn_1" (db_of State.signed) view view_shown
