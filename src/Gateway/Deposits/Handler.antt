-- ===== src/Gateway/Deposits/Handler.antt =====
-- internal/api/api.go: `handleDeposits`.
use juno_exchange_gateway.Gateway.Requests.{is_txid}
use juno_exchange_gateway.Domain.Network.{address_hrp}
use juno_exchange_gateway.Domain.Hex.{codes}
use juno_exchange_gateway.Gateway.Response.{Response, data_of, fail_with}
use juno_exchange_gateway.Gateway.Ready.{Ready, ReadyConfig, not_ready, ready_for}
use juno_exchange_gateway.Gateway.Cursor.{
  invalid, refused, encode, decode, Codec, at_position, reset_required, filter_mismatch,
}
use juno_exchange_gateway.Gateway.Deposits.{scanned, broken, Deposit, DepositQuery, scan_events}
use juno_exchange_gateway.Gateway.Effects.{ScannerEvent, is_given}
use juno_exchange_gateway.Prelude.{
  Bool, List, Option, String, [], false, if◌then◌else◌, is_empty, length, ltb, none, not, some,
  str_eq, true, ℕ, ◌&&◌, ◌==◌, ◌||◌, ◌∷◌,
}

-- domain.EventsPage
pub record EventsPage : Type 0 where
  pub events : List ScannerEvent
  pub next_cursor : ℕ
  pub event_epoch : String

-- the query's parameters; a limit that is there is a number or not
pub record DepositsRequest : Type 0 where
  pub wallet_id : String
  pub limit : Option (Option ℕ)
  pub txid : String
  pub status : String
  pub address : String
  pub cursor : List ℕ

-- What the handler asks of others: the registry and the store on this wallet, the readiness, the
-- scanner's events after a position, and the libraries.
pub record DepositSources : Type 0 where
  pub known : Bool
  pub registered : String → Option ℕ
  pub ready : Ready
  pub events : ℕ → Option EventsPage
  pub codec : Codec
  pub hash : List String → String

pub record DepositsData : Type 0 where
  pub deposits : List Deposit
  pub next_cursor : List ℕ
  pub event_epoch : String

unfoldable pub deposit_limit : Option (Option ℕ) → Option ℕ
deposit_limit none = some 100
deposit_limit (some none) = none
deposit_limit (some (some n)) = if ltb n 1 || ltb 1000 n then none else some n

unfoldable pub known_status : String → Bool
known_status s =
    is_empty s
    || str_eq s "detected"
    || str_eq s "confirmed"
    || str_eq s "unconfirmed"
    || str_eq s "orphaned"

-- the number of the last event, or the position where there is none
unfoldable pub last_id : ℕ → List ScannerEvent → ℕ
last_id position [] = position
last_id position (e ∷ events) = last_id e.id events

-- the position of the next page, behind the loop
unfoldable pub next_position : ℕ → EventsPage → List Deposit → ℕ → ℕ
next_position limit page items read =
    if ltb (length items) limit && (read == last_id read page.events)
    then page.next_cursor
    else read

unfoldable pub query_of : ReadyConfig → DepositsRequest → DepositSources → DepositQuery
query_of cfg req src = record {
  wallet_id = req.wallet_id;
  hrp = address_hrp cfg.network;
  required_confirmations = cfg.default_confirmations;
  status = req.status;
  address = req.address;
  registered = src.registered;
}

-- `depositCursorFilter`
unfoldable pub deposit_cursor_filter : DepositsRequest → DepositSources → List ℕ
deposit_cursor_filter req src = codes (src.hash (req.status ∷ req.address ∷ req.txid ∷ []))

unfoldable pub encoded_next : DepositsRequest → DepositSources → String → ℕ → List ℕ
encoded_next req src epoch position =
    encode src.codec (codes req.wallet_id) (codes epoch) (deposit_cursor_filter req src) position

-- the handler behind the scanner's answer
unfoldable pub answer_page :
    ReadyConfig
    → DepositsRequest
    → DepositSources
    → ℕ
    → String
    → ℕ
    → EventsPage
    → Response DepositsData
answer_page cfg req src limit epoch position page =
    if not (str_eq page.event_epoch epoch)
    then fail_with 409 "cursor_reset_required" false
    else if ltb page.next_cursor position
    then fail_with 502 "scanner_not_ready" true
    else if not (page.next_cursor == last_id position page.events)
    then fail_with 502 "scanner_not_ready" true
    else elim (scan_events (query_of cfg req src) limit position page.events) [
      | broken ↦ fail_with 502 "scanner_not_ready" true
      | scanned items read ↦
          let next = next_position limit page items read in
          if ltb page.next_cursor next
          then fail_with 502 "scanner_not_ready" true
          else data_of 200 (record {
            deposits = items;
            next_cursor = encoded_next req src page.event_epoch next;
            event_epoch = page.event_epoch;
          })
    ]

-- the handler from the cursor on
unfoldable pub answer_from_cursor :
    ReadyConfig → DepositsRequest → DepositSources → ℕ → String → Response DepositsData
answer_from_cursor cfg req src limit epoch =
    elim (decode src.codec req.cursor (codes req.wallet_id) (codes epoch)
      (deposit_cursor_filter req src)) [
        | refused reset_required ↦ fail_with 409 "cursor_reset_required" false
        | refused filter_mismatch ↦ fail_with 409 "cursor_filter_mismatch" false
        | refused invalid ↦ fail_with 400 "invalid_request" false
        | at_position position ↦ elim (src.events position) [
          | none ↦ fail_with 503 "scanner_not_ready" true
          | some page ↦ answer_page cfg req src limit epoch position page
        ]
      ]

-- `handleDeposits`
unfoldable pub handle_deposits :
    ReadyConfig → DepositsRequest → DepositSources → Response DepositsData
handle_deposits cfg req src =
    if not src.known then fail_with 404 "not_found" false else elim (deposit_limit req.limit) [
      | none ↦ fail_with 400 "invalid_request" false
      | some limit ↦
          if not (is_empty req.txid) && not (is_txid req.txid)
          then fail_with 400 "invalid_request" false
          else if not (known_status req.status)
          then fail_with 400 "invalid_request" false
          else if not (is_empty req.address) && not (is_given (src.registered req.address))
          then fail_with 404 "not_found" false
          else elim src.ready [
            | not_ready code ↦ fail_with 503 code true
            | ready_for r ↦ answer_from_cursor cfg req src limit r.scanner.event_epoch
          ]
    ]
