-- ===== src/Tests/Notes.antt =====
-- Note statuses in one snapshot.
use juno_exchange_gateway.Gateway.Reads.Snapshot.{IsSnapshot, handle_note_statuses-IsSnapshot}
use juno_exchange_gateway.Domain.Hex.{
  cut_colon, is_digit, is_lower_hex, is_lower_hex64, leading_zero, parse_uint, valid_note_id,
  decimal,
}
use juno_exchange_gateway.Gateway.Ready.{ready_for, is_at}
use juno_exchange_gateway.Domain.Notes.{WalletNoteStatuses, statuses_match, valid_at, valid_for}
use juno_exchange_gateway.Gateway.Response.{data_of}
use juno_exchange_gateway.Gateway.Requests.{Body, document, decode_json, equal_fold}
use juno_exchange_gateway.Gateway.Reads.{
  snapshot, NoteStatusesData, ReadsConfig, answer_statuses, handle_note_statuses, read_statuses,
  same_snapshot, valid_note_ids,
}
use juno_exchange_gateway.Domain.Network.{regtest}
use juno_exchange_gateway.Tests.Ready.{epoch, block_hash, regtest_ready}
use juno_exchange_gateway.Prelude.{
  List, String, [], false, none, refl, some, str_eq, true, ℕ, ◌∷◌, ◌≡◌,
}

abbrev note : String
note = "cccccccccccccccccccccccccccccccccccccccccccccccccccccccccccccccc:1"

abbrev note_statuses : WalletNoteStatuses
note_statuses = record {
  wallet_id = "hot";
  event_epoch = epoch;
  as_of_scanner_height = 119;
  as_of_scanner_hash = block_hash;
  statuses =
      record {
        note_id = note;
        state = "unknown";
        source_height = none;
        value_zat = none;
        pending_spent_txid = none;
        pending_spent_at = none;
        pending_spent_expiry_height = none;
        spent_txid = none;
        spent_height = none;
        spent_confirmed_height = none;
      }
      ∷ [];
}

abbrev reads_config : ReadsConfig
reads_config = record {
  network = regtest;
  default_confirmations = 2;
  max_confirmations = 100;
  json_body_bytes = 4096;
}

abbrev notes_body : Body (List String)
notes_body = record {
  media_type = some "Application/JSON";
  content_length = some 80;
  content = document (note ∷ []) false;
}

abbrev notes_answer : NoteStatusesData
notes_answer = record {
  wallet_id = "hot";
  as_of_node_height = 120;
  as_of_scanner_height = 119;
  as_of_scanner_hash = block_hash;
  scanner_lag = 1;
  event_epoch = epoch;
  statuses = note_statuses.statuses;
}

handle_note_statuses-IsSnapshot_example :
    (n : ℕ) × (notes : List String) × (s : WalletNoteStatuses) × (decode_json 4096 notes_body
      ≡ data_of n notes)
    × ((λ (asked : List String). snapshot note_statuses) notes ≡ snapshot s)
    × IsSnapshot "hot" notes (ready_for regtest_ready) (ready_for regtest_ready) s notes_answer
unfolding handle_note_statuses decode_json equal_fold valid_note_ids valid_note_id cut_colon
    is_lower_hex64 is_lower_hex leading_zero parse_uint decimal read_statuses answer_statuses
    valid_for str_eq statuses_match valid_at is_digit same_snapshot is_at
handle_note_statuses-IsSnapshot_example =
    handle_note_statuses-IsSnapshot reads_config "hot" true notes_body (ready_for regtest_ready)
      (ready_for regtest_ready) (λ asked. snapshot note_statuses) 200 notes_answer refl
