-- ===== src/Gateway/Effects/Sanitize.antt =====
-- internal/api/wallet_effects.go: `sanitizeWalletEffect`.
use juno_exchange_gateway.Gateway.Effects.Validate.{valid_deposit, valid_outgoing, valid_spend}
use juno_exchange_gateway.Gateway.Requests.{is_txid}
use juno_exchange_gateway.Gateway.Effects.{
  deposit, spend, outgoing_output, Payload, PayloadStatus, ScannerEvent, SourceNote, Stage,
  WalletEffect, kind_of, text_given, Subject, ◌>>=◌,
}
use juno_exchange_gateway.Prelude.{
  Bool, Option, String, if◌then◌else◌, is_empty, leb, ltb, none, some, str_eq, trim_space, true, ℕ,
  ◌&&◌, ◌||◌,
}

trimmed_or_empty : Option String → String
trimmed_or_empty none = ""
trimmed_or_empty (some s) = trim_space s

-- the fields that every kind has
unfoldable pub common_effect :
    ScannerEvent → Payload → PayloadStatus → String → String → String → WalletEffect
common_effect e p status wallet_id txid state = record {
  event_id = e.id;
  kind = e.kind;
  observed_height = e.height;
  observed_at = e.created_at;
  wallet_id = wallet_id;
  txid = txid;
  state = state;
  block_height = p.height;
  confirmations = status.confirmations;
  required_confirmations = p.required_confirmations;
  confirmed_height = p.confirmed_height;
  rollback_height = p.rollback_height;
  previous_confirmed_height = p.previous_confirmed_height;
  orphaned_at_height = p.orphaned_at_height;
  expiry_height = p.expiry_height;
  action_index = none;
  amount_zat = p.amount_zatoshis;
  address = "";
  diversifier_index = none;
  memo_hex = "";
  ovk_scope = "";
  recipient_scope = "";
  source_note = none;
}

-- the note of a spend, whose three fields were found to be there
source_note_of : Option String → Option ℕ → Option ℕ → Option SourceNote
source_note_of (some t) (some a) (some h) =
    some (record { txid = t; action_index = a; block_height = h })
source_note_of t a h = none

-- the tests of one kind, and the fields that it adds
unfoldable pub effect_of :
    Subject
    → Stage
    → ScannerEvent
    → Payload
    → PayloadStatus
    → String
    → String
    → ℕ
    → WalletEffect
    → Option WalletEffect
unfolding trimmed_or_empty source_note_of
effect_of deposit s e p status state hrp required out =
    if valid_deposit s e p status state hrp required
    then some (record out {
      action_index = p.action_index;
      diversifier_index = p.diversifier_index;
      address = trimmed_or_empty p.recipient_address;
    })
    else none
effect_of spend s e p status state hrp required out =
    if valid_spend s e p status state hrp required
    then some
        (record out { source_note = source_note_of p.note_txid p.note_action_index p.note_height })
    else none
effect_of outgoing_output s e p status state hrp required out =
    if valid_outgoing s e p status state hrp required
    then some (record out {
      action_index = p.action_index;
      address = trimmed_or_empty p.recipient_address;
      ovk_scope = trimmed_or_empty p.ovk_scope;
      recipient_scope = trimmed_or_empty p.recipient_scope;
      memo_hex = trimmed_or_empty p.memo_hex;
    })
    else none

fits_int64 : Option ℕ → Bool
fits_int64 none = true
fits_int64 (some n) = leb n 9223372036854775807

-- version and identity
unfoldable pub identified : ScannerEvent → Payload → String → String → String → Bool
unfolding fits_int64
identified e p wallet_id expected_txid txid =
    ltb 0 e.id
    && text_given p.version "v1"
    && text_given p.wallet_id wallet_id
    && is_txid txid
    && (is_empty expected_txid || str_eq txid expected_txid)
    && fits_int64 p.amount_zatoshis

-- `sanitizeWalletEffect`
unfoldable pub sanitize_wallet_effect :
    ScannerEvent → String → String → String → ℕ → Option WalletEffect
sanitize_wallet_effect e wallet_id expected_txid hrp required = do
  p ← e.payload
  txid ← p.txid
  status ← p.status
  state ← status.state
  kind ← kind_of e.kind
  if identified e p wallet_id expected_txid txid
      then effect_of kind.0 kind.1 e p status state hrp required
          (common_effect e p status wallet_id txid state)
      else none
