-- ===== src/Gateway/Transactions.antt =====
-- internal/api/api.go: `walletEffects`, `terminalScannerTransaction` and `handleTransaction`. The
-- scanner, the node, the registry and the store's allocations of the wallet are arguments. The loop over
-- pages runs on fuel. An error's details are not modelled. Texts of a query are trimmed.
pub mod Terminal
pub mod Handler
pub mod Fuel
use juno_exchange_gateway.Gateway.Effects.Sanitize.{sanitize_wallet_effect}
use juno_exchange_gateway.Gateway.Deposits.Handler.{EventsPage, last_id}
use juno_exchange_gateway.Gateway.Deposits.{bound, bind_registered, mismatched, unregistered}
use juno_exchange_gateway.Gateway.Effects.{ScannerEvent, deposit, kind_of, WalletEffect, is_given}
use juno_exchange_gateway.Prelude.{
  Bool, zero, suc, min, List, Option, String, [], if◌then◌else◌, leb, length, ltb, none, not, some,
  str_eq, ℕ, ◌++◌, ◌+◌, ◌-◌, ◌==◌, ◌∷◌,
}

pub record EffectsQuery : Type 0 where
  pub wallet_id : String
  pub txid : String
  pub event_epoch : String
  pub hrp : String
  pub required_confirmations : ℕ
  pub max_events : ℕ
  pub registered : String → Option ℕ

pub data EffectsError : Type 0 where
  epoch_changed : EffectsError
  limit_exceeded : EffectsError
  scanner_failed : EffectsError

pub data Effects : Type 0 where
  found_effects : List WalletEffect → Effects
  no_effects : EffectsError → Effects
  out_of_fuel : Effects

-- what the loop over one page comes to: the last position, and all effects until then
pub data PageRead : Type 0 where
  page_read : ℕ → List WalletEffect → PageRead
  page_failed : EffectsError → PageRead

-- a deposit's effect with its index, `none` for an identity that does not match
unfoldable pub bound_effect : EffectsQuery → WalletEffect → Option WalletEffect
bound_effect q effect =
    elim (bind_registered (q.registered effect.address) effect.diversifier_index) [
      | mismatched ↦ none
      | unregistered ↦ if is_given effect.diversifier_index then some effect else none
      | bound index ↦ some (record effect { diversifier_index = some index })
    ]

-- the effect of one event
unfoldable pub read_effect : EffectsQuery → ScannerEvent → Option WalletEffect
read_effect q e =
    elim (sanitize_wallet_effect e q.wallet_id q.txid q.hrp q.required_confirmations) [
      | none ↦ none
      | some effect ↦ elim (kind_of e.kind) [
        | some (deposit, s) ↦ bound_effect q effect
        | k ↦ some effect
      ]
    ]

-- the loop over the events of a page
unfoldable pub read_page : EffectsQuery → ℕ → List WalletEffect → List ScannerEvent → PageRead
read_page q position effects [] = page_read position effects
read_page q position effects (e ∷ events) =
    if leb e.id position then page_failed scanner_failed else elim (read_effect q e) [
      | none ↦ page_failed scanner_failed
      | some effect ↦
          let all_effects = effects ++ effect ∷ [] in
          let rest = read_page q e.id all_effects events in
          if ltb q.max_events (length all_effects) then page_failed limit_exceeded else rest
    ]

unfoldable pub page_limit : EffectsQuery → List WalletEffect → ℕ
page_limit q effects = min 1000 (q.max_events + 1 - length effects)

-- the scanner's answers, by position and limit
unfoldable pub wallet_effects_from :
    EffectsQuery → (ℕ → ℕ → Option EventsPage) → ℕ → ℕ → List WalletEffect → Effects
wallet_effects_from q ask zero position effects = out_of_fuel
wallet_effects_from q ask (suc fuel) position effects = elim (ask position (page_limit q effects)) [
  | none ↦ no_effects scanner_failed
  | some page ↦
      if not (str_eq page.event_epoch q.event_epoch)
      then no_effects epoch_changed
      else if not (page.next_cursor == last_id position page.events)
      then no_effects scanner_failed
      else elim (read_page q position effects page.events) [
        | page_failed err ↦ no_effects err
        | page_read last all_effects ↦
            let more = wallet_effects_from q ask fuel last all_effects in
            if not (page.next_cursor == last)
            then no_effects scanner_failed
            else if ltb (length page.events) (page_limit q effects)
            then found_effects all_effects
            else more
      ]
]

-- `walletEffects`
unfoldable pub wallet_effects : EffectsQuery → (ℕ → ℕ → Option EventsPage) → Effects
wallet_effects q ask = wallet_effects_from q ask (q.max_events + 1) 0 []
