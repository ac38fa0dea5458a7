-- ===== src/Tests/Broadcast.antt =====
-- A broadcast, and the same request again.
use juno_exchange_gateway.Domain.Hex.{is_digit, is_lower_hex, is_lower_hex64}
use juno_exchange_gateway.Gateway.Broadcast.Settled.{handle_broadcast-unowned}
use juno_exchange_gateway.Gateway.Broadcast.Replay.{handle_broadcast-replay}
use juno_exchange_gateway.Receipts.Steps.{start}
use juno_exchange_gateway.Gateway.Auth.{Principal, has_wallet}
use juno_exchange_gateway.Gateway.Requests.{
  Body, document, decode_json, equal_fold, is_idempotency_key, is_name, is_raw_tx_hex, is_txid,
  is_wallet_id,
}
use juno_exchange_gateway.Gateway.Response.{data_of}
use juno_exchange_gateway.Gateway.Broadcast.Handler.{
  Libraries, Surroundings, BroadcastConfig, handle_broadcast, payload_digest_of,
  scoped_idempotency_key, answer_stored, by_claim_state, claim_and_resolve, complete, finish,
  resolve, valid_broadcast,
}
use juno_exchange_gateway.Gateway.Broadcast.{
  replied, failed, unavailable, stored_data, BroadcastData, BroadcastRequest, NodeReplies, ask_node,
  broadcast_already_known, hand_over,
}
use juno_exchange_gateway.Receipts.{
  Receipt, is_owned, claim_existing, claim_receipt, complete_receipt, find_receipt, new_receipt,
  reclaimed, set_receipt,
}
use juno_exchange_gateway.Prelude.{
  Bool, String, [], false, none, refl, some, trim_space, true, ◌∷◌, ◌≡◌, is_space, str_eq,
  trim_left, trim_right,
}

abbrev caller : Principal
caller = record {
  name = "exchange";
  scopes = "broadcast" ∷ [];
  wallets = "hot" ∷ [];
  all_access = false;
}

abbrev sent_txid : String
sent_txid = "aaaaaaaaaaaaaaaaaaaaaaaaaaaaaaaaaaaaaaaaaaaaaaaaaaaaaaaaaaaaaaaa"

abbrev sent : BroadcastRequest
sent = record { wallet_id = "hot"; raw_tx_hex = "00ff"; expected_txid = sent_txid }

abbrev sent_body : Body BroadcastRequest
sent_body = record {
  media_type = some "application/json";
  content_length = none;
  content = document sent false;
}

abbrev accepted_data : BroadcastData
accepted_data = record {
  wallet_id = "hot";
  txid = sent_txid;
  state = "mempool";
  accepted = true;
  already_known = false;
}

abbrev libraries : Libraries
libraries = record {
  hash = λ parts. elim parts [ [] ↦ "" | x ∷ xs ↦ x ];
  marshal = λ s. "stored";
  unmarshal = λ s. some (stored_data accepted_data);
}

abbrev broadcast_config : BroadcastConfig
broadcast_config = record { broadcast_body_bytes = 4096; idempotency_lease = 60 }

abbrev quiet : Surroundings
quiet = record { claimed_at = 100; ended_at = 101; meanwhile = λ rows. rows; lost = false }

abbrev accepting : NodeReplies
accepting = record {
  ready = true;
  decoded = λ raw. replied sent_txid;
  looked_up = λ txid. replied none;
  broadcast = λ raw. replied sent_txid;
  looked_up_again = λ txid. failed unavailable;
}

abbrev known_wallet : String → Bool
known_wallet w = true

abbrev first_claim : Receipt
first_claim = record {
  key = "v1:v1";
  payload_digest = "hot";
  expected_txid = sent_txid;
  generation = 1;
  complete = false;
  http_status = 0;
  response_json = "";
  updated_at = 100;
}

abbrev answered : Receipt
answered = record first_claim {
  complete = true;
  http_status = 202;
  response_json = "stored";
  updated_at = 101;
}

handle_broadcast-unowned_example :
    is_owned
      (scoped_idempotency_key libraries "exchange" (trim_space "k1"))
      (payload_digest_of libraries sent)
      1
      answered
    ≡ false
unfolding valid_broadcast is_idempotency_key is_name trim_space is_digit decode_json equal_fold
    is_wallet_id has_wallet str_eq is_raw_tx_hex is_lower_hex is_txid is_lower_hex64 claim_receipt
    find_receipt scoped_idempotency_key payload_digest_of is_space trim_left trim_right
    claim_existing new_receipt reclaimed set_receipt handle_broadcast claim_and_resolve
    by_claim_state resolve finish ask_node broadcast_already_known hand_over complete
    complete_receipt is_owned
handle_broadcast-unowned_example =
    handle_broadcast-unowned libraries broadcast_config caller known_wallet "k1" sent_body quiet
      accepting [] 200 sent first_claim answered refl refl refl refl

handle_broadcast-replay_example :
    handle_broadcast libraries broadcast_config caller known_wallet "k1" sent_body quiet accepting
      (handle_broadcast libraries broadcast_config caller known_wallet "k1" sent_body quiet
        accepting []).receipts
    ≡ record {
      calls = [];
      response = data_of 200 (record accepted_data { accepted = false; already_known = true });
      receipts =
          (handle_broadcast libraries broadcast_config caller known_wallet "k1" sent_body quiet
            accepting []).receipts;
    }
unfolding valid_broadcast is_idempotency_key is_name trim_space is_digit decode_json equal_fold
    is_wallet_id has_wallet str_eq is_raw_tx_hex is_lower_hex is_txid is_lower_hex64 claim_receipt
    find_receipt scoped_idempotency_key payload_digest_of is_space trim_left trim_right
    claim_existing new_receipt reclaimed set_receipt handle_broadcast claim_and_resolve
    by_claim_state resolve finish ask_node broadcast_already_known hand_over complete
    complete_receipt is_owned answer_stored
handle_broadcast-replay_example =
    handle_broadcast-replay libraries broadcast_config caller known_wallet known_wallet "k1"
      sent_body sent_body quiet quiet accepting accepting []
      (handle_broadcast libraries broadcast_config caller known_wallet "k1" sent_body quiet
        accepting []).receipts
      200 200 202 sent first_claim accepted_data refl refl refl refl start refl
