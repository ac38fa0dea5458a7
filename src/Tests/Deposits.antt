-- ===== src/Tests/Deposits.antt =====
-- A confirmed deposit and a page of deposits.
use juno_exchange_gateway.Gateway.Ready.{ready_for}
use juno_exchange_gateway.Gateway.Requests.{is_txid}
use juno_exchange_gateway.Gateway.Effects.Validate.{
  valid_deposit, valid_outgoing, valid_outgoing_stage, valid_spend,
}
use juno_exchange_gateway.Gateway.Effects.Sanitize.{
  common_effect, effect_of, sanitize_wallet_effect, identified,
}
use juno_exchange_gateway.Gateway.Effects.Lifecycle.{
  lifecycle_at, only_lifecycle_fields, previous_valid, reached_required_confirmations,
  valid_lifecycle,
}
use juno_exchange_gateway.Gateway.Effects.Confirmed.{
  IsAtStage, in_block, sanitize_wallet_effect-IsAtStage,
}
use juno_exchange_gateway.Gateway.Deposits.Handler.{
  DepositSources, DepositsData, DepositsRequest, answer_from_cursor, answer_page,
  deposit_cursor_filter, deposit_limit, encoded_next, handle_deposits, known_status, last_id,
  next_position, query_of,
}
use juno_exchange_gateway.Gateway.Deposits.Continues.{IsDelivered, handle_deposits-IsDelivered}
use juno_exchange_gateway.Gateway.Deposits.{
  bind_registered, deposit_status, is_wanted, listed_deposit, outcome_of, scan_cons, scan_events,
}
use juno_exchange_gateway.Gateway.Cursor.{
  CursorPayload, bytes_eq, check_payload, cursor_parts, signed_payload, split_dot, decode, encode,
}
use juno_exchange_gateway.Domain.Network.{address_hrp}
use juno_exchange_gateway.Gateway.Effects.{
  confirmed, deposit, Payload, ScannerEvent, WalletEffect, codes_start, given_as, has_hrp, kind_of,
  text_given, value_or_zero, nonzero,
}
use juno_exchange_gateway.Domain.Hex.{codes, is_digit, is_lower_hex, is_lower_hex64}
use juno_exchange_gateway.Tests.Codec.{shifting_codec, shifting_codec-IsCodec}
use juno_exchange_gateway.Tests.Ready.{epoch, regtest_config, regtest_ready, deposit_txid}
use juno_exchange_gateway.Prelude.{
  List, Option, [], none, refl, some, str_eq, trim_space, true, ℕ, ◌∷◌, ◌≡◌, is_space, trim_left,
  trim_right,
}

abbrev deposit_payload : Payload
deposit_payload = record {
  version = some "v1";
  wallet_id = some "hot";
  diversifier_index = some 4;
  txid = some deposit_txid;
  height = some 100;
  action_index = some 1;
  amount_zatoshis = some 2500;
  memo_hex = none;
  status = some (record { state = some "confirmed"; height = some 100; confirmations = some 2 });
  origin = some "external";
  recipient_address = some "jregtest1abc";
  note_txid = none;
  note_action_index = none;
  note_height = none;
  expiry_height = none;
  ovk_scope = none;
  recipient_scope = none;
  confirmed_height = some 101;
  required_confirmations = some 2;
  orphaned_at_height = none;
  rollback_height = none;
  previous_confirmed_height = none;
}

abbrev deposit_event : ScannerEvent
deposit_event = record {
  id = 9;
  kind = "DepositConfirmed";
  height = 101;
  payload = some deposit_payload;
  created_at = 77;
}

abbrev deposit_effect : WalletEffect
deposit_effect = record {
  event_id = 9;
  kind = "DepositConfirmed";
  observed_height = 101;
  observed_at = 77;
  wallet_id = "hot";
  txid = deposit_txid;
  state = "confirmed";
  block_height = some 100;
  confirmations = some 2;
  required_confirmations = some 2;
  confirmed_height = some 101;
  rollback_height = none;
  previous_confirmed_height = none;
  orphaned_at_height = none;
  expiry_height = none;
  action_index = some 1;
  amount_zat = some 2500;
  address = "jregtest1abc";
  diversifier_index = some 4;
  memo_hex = "";
  ovk_scope = "";
  recipient_scope = "";
  source_note = none;
}

sanitize_wallet_effect-IsAtStage_example :
    (block : ℕ) × (deposit_effect.block_height ≡ some block)
    × IsAtStage 101 block 2 deposit_effect confirmed
unfolding sanitize_wallet_effect kind_of str_eq identified text_given is_txid is_lower_hex64
    is_lower_hex effect_of valid_deposit has_hrp trim_space given_as valid_lifecycle lifecycle_at
    value_or_zero only_lifecycle_fields is_digit previous_valid reached_required_confirmations
    common_effect valid_outgoing valid_outgoing_stage valid_spend codes_start nonzero is_space
    trim_left trim_right in_block
sanitize_wallet_effect-IsAtStage_example =
    sanitize_wallet_effect-IsAtStage deposit_event "hot" "" "jregtest" 2 deposit_effect deposit
      confirmed refl refl refl

-- reads a position as one of this wallet, epoch and filter
abbrev read_position : List ℕ → Option CursorPayload
read_position [] = none
read_position (n ∷ rest) = some (record {
  version = 2;
  wallet_id = codes "hot";
  epoch = codes epoch;
  filter = codes "all";
  position = n;
})

abbrev deposits_request : DepositsRequest
deposits_request = record {
  wallet_id = "hot";
  limit = some (some 1);
  txid = "";
  status = "confirmed";
  address = "";
  cursor = [];
}

abbrev deposit_sources : DepositSources
deposit_sources = record {
  known = true;
  registered = λ a. some 4;
  ready = ready_for regtest_ready;
  events = λ n. some (record { events = deposit_event ∷ []; next_cursor = 9; event_epoch = epoch });
  codec = shifting_codec read_position;
  hash = λ parts. "all";
}

abbrev deposits_answer : DepositsData
deposits_answer = record {
  deposits =
      record {
        event_id = 9;
        wallet_id = "hot";
        txid = deposit_txid;
        action_index = 1;
        address = "jregtest1abc";
        diversifier_index = 4;
        amount_zat = 2500;
        status = "confirmed";
        block_height = 100;
        confirmed_height = some 101;
        orphaned_at_height = none;
        rollback_height = none;
        observed_at = 77;
      }
      ∷ [];
  next_cursor = 109 ∷ b'.' ∷ 101 ∷ 109 ∷ [];
  event_epoch = epoch;
}

handle_deposits-IsDelivered_example :
    IsDelivered regtest_config deposits_request deposit_sources deposits_answer
unfolding deposit_cursor_filter handle_deposits deposit_limit str_eq known_status answer_from_cursor
    decode answer_page last_id scan_events outcome_of sanitize_wallet_effect kind_of identified
    text_given query_of is_txid is_digit is_lower_hex is_lower_hex64 address_hrp bytes_eq
    check_payload cursor_parts encode signed_payload split_dot encoded_next next_position
    bind_registered deposit_status is_wanted listed_deposit scan_cons lifecycle_at
    only_lifecycle_fields previous_valid reached_required_confirmations valid_lifecycle
    common_effect effect_of valid_deposit valid_outgoing valid_outgoing_stage valid_spend
    codes_start given_as has_hrp nonzero value_or_zero is_space trim_left trim_right trim_space
handle_deposits-IsDelivered_example =
    handle_deposits-IsDelivered regtest_config deposits_request deposit_sources 200 deposits_answer
      (shifting_codec-IsCodec read_position) (λ n. refl) refl
