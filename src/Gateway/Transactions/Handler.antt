-- ===== src/Gateway/Transactions/Handler.antt =====
-- internal/api/api.go: `handleTransaction`.
use juno_exchange_gateway.Gateway.Transactions.{
  EffectsError, EffectsQuery, wallet_effects, no_effects, found_effects, epoch_changed,
  limit_exceeded, scanner_failed, out_of_fuel,
}
use juno_exchange_gateway.Gateway.Requests.{is_txid}
use juno_exchange_gateway.Gateway.Transactions.Terminal.{
  terminal, terminal_scanner_transaction, invalid_terminal, not_terminal,
}
use juno_exchange_gateway.Gateway.Auth.{Principal, has_scope, has_wallet}
use juno_exchange_gateway.Gateway.Response.{Response, fail_with, data_of}
use juno_exchange_gateway.Gateway.Deposits.Handler.{EventsPage}
use juno_exchange_gateway.Gateway.Ready.{Ready, not_ready, ready_for}
use juno_exchange_gateway.Domain.Network.{Transaction, NodeTip}
use juno_exchange_gateway.Gateway.Effects.{WalletEffect}
use juno_exchange_gateway.Prelude.{
  Bool, List, Option, String, false, if◌then◌else◌, is_empty, none, not, some, true, ℕ, ◌&&◌, ◌||◌,
}

-- the path and the query; `include_raw` that is there is a truth value or not
pub record TransactionRequest : Type 0 where
  pub txid : String
  pub include_raw : Option (Option Bool)
  pub wallet_id : String

-- What the handler asks of others.
pub record TransactionSources : Type 0 where
  pub known : Bool
  pub ready : Ready
  pub ready_node : Option NodeTip
  pub events : ℕ → ℕ → Option EventsPage
  pub registered : String → Option ℕ
  pub transaction : Option (Option Transaction)

pub record TransactionConfig : Type 0 where
  pub hrp : String
  pub default_confirmations : ℕ
  pub wallet_effects_max_events : ℕ

-- the effects are there where a wallet was named
pub record TransactionData : Type 0 where
  pub transaction : Transaction
  pub wallet_effects : Option (List WalletEffect)

unfoldable pub wants_raw : Option (Option Bool) → Option Bool
wants_raw none = some false
wants_raw (some b) = b

unfoldable pub answer_transaction :
    Option (List WalletEffect) → Transaction → Response TransactionData
answer_transaction effects tx = data_of 200 (record { transaction = tx; wallet_effects = effects })

-- the end of the handler: the node's transaction, or the scanner's terminal one. `wallet` are the
-- effects and the node's height where a wallet was named.
unfoldable pub find_transaction :
    TransactionSources → String → Bool → Option (List WalletEffect × ℕ) → Response TransactionData
find_transaction src txid raw wallet = elim src.transaction [
  | none ↦ fail_with 502 "node_rpc_error" true
  | some (some tx) ↦ elim wallet [
    | none ↦ answer_transaction none tx
    | some (effects, height) ↦ answer_transaction (some effects) tx
  ]
  | some none ↦ elim wallet [
    | none ↦ fail_with 404 "not_found" false
    | some (effects, height) ↦
        if raw
        then fail_with 404 "not_found" false
        else elim (terminal_scanner_transaction txid effects height) [
          | invalid_terminal ↦ fail_with 503 "scanner_not_ready" true
          | not_terminal ↦ fail_with 404 "not_found" false
          | terminal tx ↦ answer_transaction (some effects) tx
        ]
  ]
]

unfoldable pub effects_query :
    TransactionConfig → TransactionRequest → TransactionSources → String → EffectsQuery
effects_query cfg req src epoch = record {
  wallet_id = req.wallet_id;
  txid = req.txid;
  event_epoch = epoch;
  hrp = cfg.hrp;
  required_confirmations = cfg.default_confirmations;
  max_events = cfg.wallet_effects_max_events;
  registered = src.registered;
}

effects_error : EffectsError → Response TransactionData
effects_error epoch_changed = fail_with 409 "event_history_reset" true
effects_error limit_exceeded = fail_with 422 "wallet_effects_limit_exceeded" false
effects_error scanner_failed = fail_with 503 "scanner_not_ready" true

-- the handler for a wallet; the case of no fuel is the model's alone
unfoldable pub wallet_transaction :
    TransactionConfig
    → TransactionRequest
    → TransactionSources
    → Principal
    → Bool
    → Response TransactionData
unfolding effects_error
wallet_transaction cfg req src p raw =
    if not (has_scope p "withdrawal") || not (has_wallet p req.wallet_id)
    then fail_with 403 "forbidden" false
    else if not src.known
    then fail_with 404 "not_found" false
    else elim src.ready [
      | not_ready code ↦ fail_with 503 code true
      | ready_for r ↦ elim src.ready_node [
        | none ↦ fail_with 503 "node_not_ready" true
        | some tip ↦
            elim (wallet_effects (effects_query cfg req src r.scanner.event_epoch) src.events) [
              | no_effects err ↦ effects_error err
              | out_of_fuel ↦ fail_with 500 "internal" false
              | found_effects effects ↦
                  find_transaction src req.txid raw (some (effects, r.node.height))
            ]
      ]
    ]

-- `handleTransaction`
unfoldable pub handle_transaction :
    TransactionConfig
    → TransactionRequest
    → TransactionSources
    → Principal
    → Response TransactionData
handle_transaction cfg req src p =
    if not (is_txid req.txid)
    then fail_with 400 "invalid_request" false
    else elim (wants_raw req.include_raw) [
      | none ↦ fail_with 400 "invalid_request" false
      | some raw ↦
          if raw && not (has_scope p "raw")
          then fail_with 403 "forbidden" false
          else if not (is_empty req.wallet_id)
          then wallet_transaction cfg req src p raw
          else elim src.ready_node [
            | none ↦ fail_with 503 "node_not_ready" true
            | some tip ↦ find_transaction src req.txid raw none
          ]
    ]
