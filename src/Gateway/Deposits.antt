-- ===== src/Gateway/Deposits.antt =====
-- internal/api/api.go: `handleDeposits`, `bindRegisteredDepositIdentity`, `depositStatus` and
-- `depositCursorFilter`. The store's allocations of the wallet, the scanner's page and the readiness
-- are arguments, and so is SHA-256. An answer's `deposit_id` is written from its wallet, txid and action,
-- its `event_id` from the epoch and the event's number. The error's details are not modelled. Texts
-- of a query are trimmed.
pub mod Paging
pub mod Handler
pub mod Continues
use juno_exchange_gateway.Gateway.Effects.Sanitize.{sanitize_wallet_effect}
use juno_exchange_gateway.Gateway.Effects.{
  ScannerEvent, WalletEffect, kind_of, deposit, event, confirmed, unconfirmed, orphaned,
}
use juno_exchange_gateway.Prelude.{
  Bool, List, Option, String, [], if◌then◌else◌, is_empty, leb, none, some, str_eq, ℕ, ◌&&◌, ◌-◌,
  ◌==◌, ◌||◌, ◌∷◌,
}

pub record Deposit : Type 0 where
  pub event_id : ℕ
  pub wallet_id : String
  pub txid : String
  pub action_index : ℕ
  pub address : String
  pub diversifier_index : ℕ
  pub amount_zat : ℕ
  pub status : String
  pub block_height : ℕ
  pub confirmed_height : Option ℕ
  pub orphaned_at_height : Option ℕ
  pub rollback_height : Option ℕ
  pub observed_at : ℕ

-- `depositStatus`
unfoldable pub deposit_status : String → Option String
deposit_status kind = elim (kind_of kind) [
  | some (deposit, event) ↦ some "detected"
  | some (deposit, confirmed) ↦ some "confirmed"
  | some (deposit, unconfirmed) ↦ some "unconfirmed"
  | some (deposit, orphaned) ↦ some "orphaned"
  | k ↦ none
]

-- whether an address is the wallet's, and the index that the effect is answered with
pub data Binding : Type 0 where
  unregistered : Binding
  mismatched : Binding
  bound : ℕ → Binding

-- `bindRegisteredDepositIdentity` for the diversifier index of the wallet's allocation of the address
unfoldable pub bind_registered : Option ℕ → Option ℕ → Binding
bind_registered none reported = unregistered
bind_registered (some allocated) none = if allocated == 0 then bound 0 else mismatched
bind_registered (some allocated) (some index) =
    if allocated == index then bound index else mismatched

-- What the loop needs to know of the request.
pub record DepositQuery : Type 0 where
  pub wallet_id : String
  pub hrp : String
  pub required_confirmations : ℕ
  pub status : String
  pub address : String
  pub registered : String → Option ℕ

-- what one event comes to
pub data Outcome : Type 0 where
  invalid_event : Outcome
  skipped : Outcome
  listed : Deposit → Outcome

-- the fields of a deposit, which must all be there
unfoldable pub listed_deposit : ScannerEvent → WalletEffect → String → ℕ → Outcome
listed_deposit e effect status index = elim effect.action_index [
  | none ↦ invalid_event
  | some action ↦ elim effect.amount_zat [
    | none ↦ invalid_event
    | some amount ↦ elim effect.block_height [
      | none ↦ invalid_event
      | some height ↦ listed (record {
        event_id = e.id;
        wallet_id = effect.wallet_id;
        txid = effect.txid;
        action_index = action;
        address = effect.address;
        diversifier_index = index;
        amount_zat = amount;
        status = status;
        block_height = height;
        confirmed_height = effect.confirmed_height;
        orphaned_at_height = effect.orphaned_at_height;
        rollback_height = effect.rollback_height;
        observed_at = e.created_at;
      })
    ]
  ]
]

-- the filters of the query
unfoldable pub is_wanted : DepositQuery → String → String → Bool
is_wanted q status address =
    (is_empty q.status || str_eq status q.status)
    && (is_empty q.address || str_eq address q.address)

-- the body of the loop for one event, apart from its number
unfoldable pub outcome_of : DepositQuery → ScannerEvent → Outcome
outcome_of q e = elim (sanitize_wallet_effect e q.wallet_id "" q.hrp q.required_confirmations) [
  | none ↦ invalid_event
  | some effect ↦ elim (deposit_status e.kind) [
    | none ↦ invalid_event
    | some status ↦ elim (bind_registered (q.registered effect.address) effect.diversifier_index) [
      | unregistered ↦ skipped
      | mismatched ↦ invalid_event
      | bound index ↦
          if is_wanted q status effect.address
          then listed_deposit e effect status index
          else skipped
    ]
  ]
]

-- what the loop answers with: the deposits, and the number of the last event that was read
pub data Scan : Type 0 where
  broken : Scan
  scanned : List Deposit → ℕ → Scan

unfoldable pub scan_cons : Deposit → Scan → Scan
scan_cons d broken = broken
scan_cons d (scanned ds n) = scanned (d ∷ ds) n

-- the loop; `room` is how many deposits may still be listed, and one at least
unfoldable pub scan_events : DepositQuery → ℕ → ℕ → List ScannerEvent → Scan
scan_events q room position [] = scanned [] position
scan_events q room position (e ∷ events) =
    let skip = scan_events q room e.id events in
    let more = scan_events q (room - 1) e.id events in
    if leb e.id position then broken else elim (outcome_of q e) [
      | invalid_event ↦ broken
      | skipped ↦ skip
      | listed d ↦ if leb room 1 then scanned (d ∷ []) e.id else scan_cons d more
    ]
