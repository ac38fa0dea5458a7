-- ===== src/Tests/Proof.antt =====
-- Reconciliation of a signed attempt whose transaction expired, and of one that is confirmed.
use juno_exchange_gateway.Coordinator.Reconcile.Progress.{IsReleased, reconcile_attempt-IsReleased}
use juno_exchange_gateway.Attempts.Mark.{mark_attempt_state, marked, touch}
use juno_exchange_gateway.Domain.Hex.{
  cut_colon, decimal, is_lower_hex, is_lower_hex64, leading_zero, parse_uint, valid_note_id,
  is_digit,
}
use mathlib.Core.Path.{subst}
use juno_exchange_gateway.Prelude.{
  ◌≡◌, ◌≢◌, ◌≤◌, refl, true, false, none, some, [], ◌∷◌, String, map, length, str_eq, Option, arith,
}
use juno_exchange_gateway.State.{
  State, expired_pending_reconciliation, mined, released, final, allowed_attempt_transition,
  safe_reservation_release_transition, terminal_attempt_state,
}
use juno_exchange_gateway.Domain.Network.{
  NodeTip, ScannerHealth, Transaction, address_hrp, network_name, node_chain,
}
use juno_exchange_gateway.Domain.Notes.{
  NoteStatus, WalletNoteStatuses, valid_for, statuses_match, valid_at,
}
use juno_exchange_gateway.Domain.NoteLaws.{IsFresh, AllConsistentAt, valid_for_sound}
use juno_exchange_gateway.Db.{
  Attempt, Db, find_attempt, delete_reservations, insert_attempt_event, update_attempt,
}
use juno_exchange_gateway.Coordinator.Reconcile.{
  Answers, reconcile_attempt, all_spent_by, all_unspent, expiry_valid, health_ok, past_expiry,
  reconcile_expired, reconcile_final, scanner_proof, statuses_ok, tip_ok, transition,
}
use juno_exchange_gateway.Attempts.States.{StateIs}
use juno_exchange_gateway.Coordinator.Reconcile.Proofs.{
  ReleaseReady, FinalReady, released_needs_proof, final_needs_proof,
}
use juno_exchange_gateway.Tests.Sample.{candidate, config}

abbrev note : String
note = "aaaaaaaaaaaaaaaaaaaaaaaaaaaaaaaaaaaaaaaaaaaaaaaaaaaaaaaaaaaaaaaa:3"

abbrev txid : String
txid = "bbbbbbbbbbbbbbbbbbbbbbbbbbbbbbbbbbbbbbbbbbbbbbbbbbbbbbbbbbbbbbbb"

abbrev block : String
block = "cccccccccccccccccccccccccccccccccccccccccccccccccccccccccccccccc"

abbrev pub row : State → Attempt
row state = record (candidate "txn_1" "v1:a") {
  state = state;
  selected_note_ids = note ∷ [];
  txid = txid;
  expiry_height = 120;
}

abbrev pub db_of : State → Db
db_of state = record {
  wallets = "hot" ∷ [];
  attempts = row state ∷ [];
  reservations =
      record {
        network = "regtest";
        wallet_id = "hot";
        note_id = note;
        attempt_id = "txn_1";
        plan_digest = "";
        created_at = 3;
      }
      ∷ [];
  events = [];
}

abbrev tip : NodeTip
tip = record {
  network = "regtest";
  height = 130;
  hash = block;
  initial_block_download = false;
  block_time = 7;
  headers = 130;
  progress_in_range = true;
}

abbrev health : ScannerHealth
health = record {
  status = "ok";
  network = "regtest";
  ua_hrp = "jregtest";
  confirmations = some 10;
  ready = some true;
  event_epoch = block;
  node_height = some 130;
  scanner_lag = some 0;
  max_ready_lag = none;
  scanned_height = some 130;
  scanned_hash = block;
  history_complete = some true;
  pending_spends_ready = some true;
}

abbrev pub unspent : NoteStatus
unspent = record {
  note_id = note;
  state = "unspent";
  source_height = some 90;
  value_zat = some 70;
  pending_spent_txid = none;
  pending_spent_at = none;
  pending_spent_expiry_height = none;
  spent_txid = none;
  spent_height = none;
  spent_confirmed_height = none;
}

abbrev spent : NoteStatus
spent = record unspent {
  state = "spent";
  spent_txid = some txid;
  spent_height = some 110;
  spent_confirmed_height = some 119;
}

abbrev report : NoteStatus → WalletNoteStatuses
report s = record {
  wallet_id = "hot";
  event_epoch = block;
  as_of_scanner_height = 130;
  as_of_scanner_hash = block;
  statuses = s ∷ [];
}

abbrev pub answers : Option Transaction → NoteStatus → Answers
answers found s = record {
  lookup = some found;
  expiry_tip = some tip;
  proof_tip = some tip;
  health = some health;
  statuses = some (some (report s));
}

abbrev confirmed : Transaction
confirmed = record {
  txid = txid;
  state = "confirmed";
  confirmations = 20;
  block_hash = block;
  block_height = some 110;
  block_time = none;
  expiry_height = some 120;
  serialized_size = none;
  orchard_actions = none;
  raw_tx_hex = "";
}

pub row_state : (P : State → Type 0) (s : State) → P s → StateIs P "txn_1" (db_of s)
unfolding find_attempt str_eq
row_state P s p b h = let e : row s ≡ b = cc h in subst (λ a. P a.state) e p

released_found :
    find_attempt "txn_1"
      (reconcile_attempt config
        (row expired_pending_reconciliation)
        (answers none unspent)
        9
        (db_of expired_pending_reconciliation)).attempts
    ≡ some (record (row released) { updated_at = 9 })
unfolding find_attempt reconcile_attempt past_expiry expiry_valid tip_ok str_eq node_chain
    reconcile_expired scanner_proof health_ok network_name address_hrp statuses_ok valid_for
    is_lower_hex64 is_lower_hex statuses_match valid_note_id cut_colon mark_attempt_state marked
    touch all_spent_by all_unspent reconcile_final transition delete_reservations
    insert_attempt_event update_attempt decimal is_digit leading_zero parse_uint valid_at
    allowed_attempt_transition safe_reservation_release_transition terminal_attempt_state
released_found = refl

final_found :
    find_attempt "txn_1"
      (reconcile_attempt config
        (row mined)
        (answers (some confirmed) spent)
        9
        (db_of mined)).attempts
    ≡ some (record (row final) { updated_at = 9 })
unfolding find_attempt reconcile_attempt str_eq reconcile_final scanner_proof tip_ok node_chain
    health_ok network_name address_hrp statuses_ok valid_for is_lower_hex64 is_lower_hex
    statuses_match valid_note_id cut_colon leading_zero parse_uint mark_attempt_state marked touch
    all_spent_by all_unspent expiry_valid past_expiry reconcile_expired transition
    delete_reservations insert_attempt_event update_attempt decimal is_digit valid_at
    allowed_attempt_transition safe_reservation_release_transition terminal_attempt_state
final_found = refl

released_needs_proof_example :
    ReleaseReady config (row expired_pending_reconciliation) (answers none unspent)
released_needs_proof_example =
    released_needs_proof "txn_1" config (answers none unspent) 9
      (row expired_pending_reconciliation) (db_of expired_pending_reconciliation)
      (record (row released) { updated_at = 9 })
      (row_state (λ s. s ≢ released) expired_pending_reconciliation (λ e. absurd (cc e)))
      released_found refl

final_needs_proof_example : FinalReady config (row mined) (answers (some confirmed) spent)
final_needs_proof_example =
    final_needs_proof "txn_1" config (answers (some confirmed) spent) 9 (row mined) (db_of mined)
      (record (row final) { updated_at = 9 })
      (row_state (λ s. s ≢ final) mined (λ e. absurd (cc e))) final_found refl

report_valid : valid_for "hot" (note ∷ []) (report spent) ≡ true
unfolding valid_for str_eq is_lower_hex64 is_lower_hex statuses_match valid_note_id cut_colon
    leading_zero parse_uint decimal valid_at
report_valid = refl

valid_for_sound_example :
    ((report spent).wallet_id ≡ "hot")
    × (map (λ x. x.note_id) (report spent).statuses ≡ note ∷ [])
    × IsFresh [] (note ∷ [])
    × AllConsistentAt 130 (report spent).statuses
    × (1 ≤ length (note ∷ []))
    × (length (note ∷ []) ≤ 200)
valid_for_sound_example = valid_for_sound "hot" (note ∷ []) (report spent) report_valid

proof_found :
    scanner_proof config (row expired_pending_reconciliation) (answers none unspent)
    ≡ some (tip, report unspent)
unfolding scanner_proof tip_ok str_eq node_chain health_ok network_name address_hrp statuses_ok
    valid_for is_lower_hex64 is_lower_hex statuses_match valid_note_id cut_colon leading_zero
    parse_uint decimal valid_at is_digit
proof_found = refl

expired_found :
    find_attempt "txn_1" (db_of expired_pending_reconciliation).attempts
    ≡ some (row expired_pending_reconciliation)
unfolding find_attempt str_eq
expired_found = refl

expiry_set : expiry_valid (row expired_pending_reconciliation) ≡ true
unfolding expiry_valid
expiry_set = refl

none_spent : all_unspent (report unspent).statuses ≡ true
unfolding all_unspent str_eq
none_spent = refl

reconcile_attempt-IsReleased_example : IsReleased (row expired_pending_reconciliation) (
    reconcile_attempt config
      (row expired_pending_reconciliation)
      (answers none unspent)
      9
      (db_of expired_pending_reconciliation))
reconcile_attempt-IsReleased_example =
    reconcile_attempt-IsReleased config (row expired_pending_reconciliation) (answers none unspent)
      9 (db_of expired_pending_reconciliation) tip (report unspent) expired_found refl refl
      expiry_set proof_found (omega arith) none_spent
