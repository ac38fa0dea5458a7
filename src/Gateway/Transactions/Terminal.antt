-- ===== src/Gateway/Transactions/Terminal.antt =====
-- internal/api/api.go: `terminalScannerTransaction`.
use juno_exchange_gateway.Domain.Network.{Transaction}
use juno_exchange_gateway.Gateway.Effects.{WalletEffect, kind_of, orphaned, expired}
use juno_exchange_gateway.Prelude.{
  List, Option, String, [], if◌then◌else◌, is_empty, leb, none, not, some, str_eq, ℕ, ◌&&◌, ◌∷◌,
}

pub data Terminal : Type 0 where
  terminal : Transaction → Terminal
  not_terminal : Terminal
  invalid_terminal : Terminal

-- the state that an effect's kind leaves the transaction in: none, orphaned or expired
unfoldable pub terminal_state : WalletEffect → Option String
terminal_state effect = elim (kind_of effect.kind) [
  | none ↦ none
  | some (k, orphaned) ↦ some "orphaned"
  | some (k, expired) ↦ some "expired"
  | some (k, s) ↦ some ""
]

-- the loop: the last effect of a known kind, with its state
unfoldable pub latest_effect :
    Option (WalletEffect × String) → List WalletEffect → Option (WalletEffect × String)
latest_effect latest [] = latest
latest_effect latest (e ∷ effects) = elim (terminal_state e) [
  | none ↦ latest_effect latest effects
  | some state ↦ latest_effect (some (e, state)) effects
]

bare_transaction : String → String → Option ℕ → Option ℕ → Transaction
bare_transaction txid state block_height expiry_height = record {
  txid = txid;
  state = state;
  confirmations = 0;
  block_hash = "";
  block_height = block_height;
  block_time = none;
  expiry_height = expiry_height;
  serialized_size = none;
  orchard_actions = none;
  raw_tx_hex = "";
}

-- an expired transaction's expiry lies below the node's height
expired_transaction : String → WalletEffect → ℕ → Terminal
unfolding bare_transaction
expired_transaction txid e node_height = elim e.expiry_height [
  | none ↦ invalid_terminal
  | some h ↦
      if leb node_height h
      then invalid_terminal
      else terminal (bare_transaction txid "expired" e.block_height (some h))
]

-- `terminalScannerTransaction`
unfoldable pub terminal_scanner_transaction : String → List WalletEffect → ℕ → Terminal
unfolding bare_transaction expired_transaction
terminal_scanner_transaction txid effects node_height = elim (latest_effect none effects) [
  | none ↦ not_terminal
  | some (e, state) ↦
      if is_empty state
      then not_terminal
      else if not (str_eq e.txid txid && str_eq e.state state)
      then invalid_terminal
      else if str_eq state "expired"
      then expired_transaction txid e node_height
      else terminal (bare_transaction txid state e.block_height none)
]
