-- ===== src/Tests/Transactions.antt =====
-- A scanner that answers every page in full.
use juno_exchange_gateway.Gateway.Effects.{Payload}
use juno_exchange_gateway.Gateway.Transactions.Fuel.{wallet_effects_ends}
use juno_exchange_gateway.Gateway.Deposits.Handler.{EventsPage}
use juno_exchange_gateway.Gateway.Transactions.{out_of_fuel, EffectsQuery, wallet_effects}
use juno_exchange_gateway.Prelude.{Option, [], none, some, ℕ, ◌+◌, ◌∷◌, ◌≡◌}

abbrev spend_payload : Payload
spend_payload = record {
  version = some "v1";
  wallet_id = some "hot";
  diversifier_index = none;
  txid = some "cccccccccccccccccccccccccccccccccccccccccccccccccccccccccccccccc";
  height = some 7;
  action_index = none;
  amount_zatoshis = some 50;
  memo_hex = none;
  status = some (record { state = some "confirmed"; height = some 7; confirmations = some 1 });
  origin = none;
  recipient_address = none;
  note_txid = some "cccccccccccccccccccccccccccccccccccccccccccccccccccccccccccccccc";
  note_action_index = some 0;
  note_height = some 5;
  expiry_height = none;
  ovk_scope = none;
  recipient_scope = none;
  confirmed_height = none;
  required_confirmations = none;
  orphaned_at_height = none;
  rollback_height = none;
  previous_confirmed_height = none;
}

abbrev endless_page : ℕ → ℕ → Option EventsPage
endless_page position limit = some (record {
  events =
      record {
        id = position + 1;
        kind = "SpendEvent";
        height = 7;
        payload = some spend_payload;
        created_at = 0;
      }
      ∷ [];
  next_cursor = position + 1;
  event_epoch = "epoch";
})

abbrev capped : EffectsQuery
capped = record {
  wallet_id = "hot";
  txid = "";
  event_epoch = "epoch";
  hrp = "jregtest";
  required_confirmations = 2;
  max_events = 3;
  registered = λ a. none;
}

wallet_effects_ends_example : ¬ (wallet_effects capped endless_page ≡ out_of_fuel)
wallet_effects_ends_example = wallet_effects_ends capped endless_page
