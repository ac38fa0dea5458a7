-- ===== src/Gateway/Reads.antt =====
-- internal/api/api.go: `confirmations`, `handleBalance`, `handleNoteStatuses` and
-- `handleAllocateAddress`. The registry, the store, the scanner and the readiness, before and after the
-- scanner's answer, are arguments. An error's details are not modelled. A number of a query that is there is
-- a number of 64 bits or none.
pub mod Snapshot
use juno_exchange_gateway.Gateway.Effects.{has_hrp, is_given}
use juno_exchange_gateway.Domain.Notes.{NoteStatus, WalletNoteStatuses, valid_for}
use juno_exchange_gateway.Domain.Network.{Network, ScannerHealth, address_hrp}
use juno_exchange_gateway.Storage.Wallets.{allocate_address, Tables, AddressRow}
use juno_exchange_gateway.Domain.Balance.{Balance, balance_valid_for}
use juno_exchange_gateway.Domain.Hex.{codes, valid_note_id}
use juno_exchange_gateway.Gateway.Requests.{Body, decode_json}
use juno_exchange_gateway.Gateway.Response.{Response, fail_with, data_of, error_of}
use juno_exchange_gateway.Gateway.Ready.{Ready, Readiness, is_at, not_ready, ready_for}
use juno_exchange_gateway.Prelude.{
  Bool, List, Option, String, [], false, if◌then◌else◌, length, ltb, mem, none, not, some, str_eq,
  trim_space, true, ℕ, ◌&&◌, ◌||◌, ◌∷◌,
}

-- `confirmations`: the default, the maximum and the query's text
unfoldable pub query_confirmations : ℕ → ℕ → Option (Option ℕ) → Option ℕ
query_confirmations default maximum none = some default
query_confirmations default maximum (some none) = none
query_confirmations default maximum (some (some n)) = if ltb maximum n then none else some n

pub record BalanceRequest : Type 0 where
  pub wallet_id : String
  pub address : String
  pub min_confirmations : Option (Option ℕ)

pub record ReadsConfig : Type 0 where
  pub network : Network
  pub default_confirmations : ℕ
  pub max_confirmations : ℕ
  pub json_body_bytes : ℕ

-- the scanner's balance for a number of confirmations: an error, no wallet, or a balance
unfoldable pub answer_balance : BalanceRequest → ℕ → Option (Option Balance) → Response Balance
answer_balance req confirmations none = fail_with 503 "scanner_not_ready" true
answer_balance req confirmations (some none) = fail_with 404 "not_found" false
answer_balance req confirmations (some (some b)) =
    if balance_valid_for b req.wallet_id req.address confirmations
    then data_of 200 b
    else fail_with 503 "scanner_not_ready" true

-- `handleBalance`
unfoldable pub handle_balance :
    ReadsConfig
    → BalanceRequest
    → Bool
    → Bool
    → Ready
    → (ℕ → ℕ → Option (Option Balance))
    → Response Balance
handle_balance cfg req known registered ready balance =
    if not known
    then fail_with 404 "not_found" false
    else if not (has_hrp (address_hrp cfg.network) req.address)
    then fail_with 400 "invalid_request" false
    else if not registered
    then fail_with 404 "not_found" false
    else elim (query_confirmations cfg.default_confirmations cfg.max_confirmations
        req.min_confirmations) [
          | none ↦ fail_with 400 "invalid_request" false
          | some n ↦ elim ready [
            | not_ready code ↦ fail_with 503 code true
            | ready_for r ↦ answer_balance req n (balance n r.node.height)
          ]
        ]

-- the scanner's note statuses: an error of a kind, no wallet, or a snapshot
pub data NoteReply : Type 0 where
  snapshot_changed : NoteReply
  invalid_reply : NoteReply
  request_failed : NoteReply
  wallet_missing : NoteReply
  snapshot : WalletNoteStatuses → NoteReply

pub record NoteStatusesData : Type 0 where
  pub wallet_id : String
  pub as_of_node_height : ℕ
  pub as_of_scanner_height : ℕ
  pub as_of_scanner_hash : String
  pub scanner_lag : ℕ
  pub event_epoch : String
  pub statuses : List NoteStatus

-- note IDs that are well-formed and not repeated
unfoldable pub valid_note_ids : List String → List String → Bool
valid_note_ids seen [] = true
valid_note_ids seen (n ∷ notes) =
    valid_note_id (codes n) && not (mem n seen) && valid_note_ids (n ∷ seen) notes

-- the snapshot is the one of both readiness reports
unfoldable pub same_snapshot : WalletNoteStatuses → ScannerHealth → ScannerHealth → Bool
same_snapshot s before after =
    is_at before.scanned_height s.as_of_scanner_height
    && str_eq s.as_of_scanner_hash before.scanned_hash
    && str_eq s.event_epoch before.event_epoch
    && is_at after.scanned_height s.as_of_scanner_height
    && str_eq after.scanned_hash before.scanned_hash
    && str_eq after.event_epoch before.event_epoch

-- the handler behind the scanner's answer
unfoldable pub answer_statuses :
    String → List String → Readiness → WalletNoteStatuses → Ready → Response NoteStatusesData
answer_statuses wallet_id notes before s after =
    if not (valid_for wallet_id notes s)
    then fail_with 502 "scanner_not_ready" true
    else elim after [
      | not_ready code ↦ fail_with 409 "scanner_snapshot_changed" true
      | ready_for r ↦
          if not (same_snapshot s before.scanner r.scanner)
          then fail_with 409 "scanner_snapshot_changed" true
          else data_of 200 (record {
            wallet_id = wallet_id;
            as_of_node_height = before.node.height;
            as_of_scanner_height = s.as_of_scanner_height;
            as_of_scanner_hash = s.as_of_scanner_hash;
            scanner_lag = before.scanner_lag;
            event_epoch = s.event_epoch;
            statuses = s.statuses;
          })
    ]

unfoldable pub read_statuses :
    String → List String → Ready → (List String → NoteReply) → Ready → Response NoteStatusesData
read_statuses wallet_id notes before ask after = elim before [
  | not_ready code ↦ fail_with 503 code true
  | ready_for r ↦
      if not (is_given r.scanner.scanned_height)
      then fail_with 503 "scanner_not_ready" true
      else elim (ask notes) [
        | snapshot_changed ↦ fail_with 409 "scanner_snapshot_changed" true
        | invalid_reply ↦ fail_with 502 "scanner_not_ready" true
        | request_failed ↦ fail_with 503 "scanner_not_ready" true
        | wallet_missing ↦ fail_with 502 "scanner_not_ready" true
        | snapshot s ↦ answer_statuses wallet_id notes r s after
      ]
]

-- `handleNoteStatuses`
unfoldable pub handle_note_statuses :
    ReadsConfig
    → String
    → Bool
    → Body (List String)
    → Ready
    → (List String → NoteReply)
    → Ready
    → Response NoteStatusesData
handle_note_statuses cfg wallet_id known body before ask after =
    if not known
    then fail_with 404 "not_found" false
    else elim (decode_json cfg.json_body_bytes body) [
      | error_of e ↦ error_of e
      | data_of status notes ↦
          if ltb (length notes) 1 || ltb 200 (length notes)
          then fail_with 400 "invalid_request" false
          else if not (valid_note_ids [] notes)
          then fail_with 400 "invalid_request" false
          else read_statuses wallet_id notes before ask after
    ]

-- `walletRegistry.allocate`: the derivation that the store is given
unfoldable pub network_derivation : Network → (ℕ → Option String) → ℕ → Option String
network_derivation n derive index = elim (derive index) [
  | none ↦ none
  | some a ↦ if has_hrp (address_hrp n) a then some a else none
]

-- `handleAllocateAddress`, over the store's tables; a label is at most 128 bytes, and `label_bytes`
-- counts them
unfoldable pub handle_allocate_address :
    ReadsConfig
    → (String → ℕ)
    → String
    → Bool
    → Body String
    → Ready
    → (ℕ → Option String)
    → ℕ
    → Tables
    → Response AddressRow × Tables
handle_allocate_address cfg label_bytes wallet_id known body ready derive now t =
    if not known
    then (fail_with 404 "not_found" false, t)
    else elim (decode_json cfg.json_body_bytes body) [
      | error_of e ↦ (error_of e, t)
      | data_of status label ↦
          if ltb 128 (label_bytes (trim_space label))
          then (fail_with 400 "invalid_request" false, t)
          else elim ready [
            | not_ready code ↦ (fail_with 503 code true, t)
            | ready_for r ↦
                elim (allocate_address wallet_id (trim_space label) now
                  (network_derivation cfg.network derive) t) [
                    | none ↦ (fail_with 500 "internal" false, t)
                    | some (a, after) ↦ (data_of 201 a, after)
                  ]
          ]
    ]
