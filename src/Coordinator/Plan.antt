-- ===== src/Coordinator/Plan.antt =====
-- internal/coordinator/types.go, `validatePlan`, and internal/coordinator/service.go,
-- `validateSignerResult` and `sameStringSet`. `encoding/json` and `crypto/sha256` are used through
-- the decoder and the digest that a section takes.
pub mod Accepted
use juno_exchange_gateway.Prelude.{
  ℕ, zero, suc, ◌+◌, Bool, true, false, ◌&&◌, ◌||◌, not, Option, none, some, List, [], ◌∷◌, String,
  str_eq, is_empty, mem, ltb, leb, ◌==◌, length, if◌then◌else◌,
}
use juno_exchange_gateway.Domain.Network.{Network, mainnet, testnet, regtest, node_chain}
use juno_exchange_gateway.Domain.Hex.{codes, plan_note_id, parse_decimal_zat}
use juno_exchange_gateway.Coordinator.Request.{
  Wallet, Output, CreateRequest, is_split, plan_outputs,
}
use juno_exchange_gateway.Attempts.Reserve.{sort_strings}

-- the TxPlan document, decoded; `notes` are the note IDs
pub record TxPlan : Type 0 where
  pub version : String
  pub kind : String
  pub wallet_id : String
  pub coin_type : ℕ
  pub account : ℕ
  pub chain : String
  pub expiry_height : ℕ
  pub outputs : List Output
  pub change_address : String
  pub fee_zat : String
  pub notes : List String

pub record PlanResult : Type 0 where
  pub bytes : String
  pub digest : String
  pub fee_zat : String
  pub expiry_height : ℕ
  pub selected_note_ids : List String
  pub output_count : ℕ

unfoldable pub plan_kind : CreateRequest → String
unfolding is_split
plan_kind r = if is_split r then "rebalance" else "withdrawal"

unfoldable pub coin_type_of : Network → ℕ
coin_type_of mainnet = 8133
coin_type_of testnet = 8134
coin_type_of regtest = 8135

abbrev pub max_plan_outputs : ℕ
max_plan_outputs = 199

unfoldable pub same_output : Output → Output → Bool
same_output a b =
    str_eq a.to_address b.to_address
    && str_eq a.amount_zat b.amount_zat
    && str_eq a.memo_hex b.memo_hex

-- an output after the approved ones: change, paid back with no memo
unfoldable pub is_split_change : String → Output → Bool
is_split_change change o =
    elim (parse_decimal_zat (codes o.amount_zat)) [ none ↦ false | some n ↦ not (n == 0) ]
    && str_eq o.to_address change
    && is_empty o.memo_hex

all_split_change : String → List Output → Bool
all_split_change change [] = true
all_split_change change (o ∷ os) = elim (is_split_change change o) [
  | true ↦ all_split_change change os
  | false ↦ false
]

-- The outputs start with the expected ones, and the rest is change, of which a note split has none.
unfoldable pub outputs_ok : Bool → String → List Output → List Output → Bool
unfolding all_split_change
outputs_ok split change [] rest = not (split && ltb 0 (length rest)) && all_split_change change rest
outputs_ok split change (e ∷ es) [] = false
outputs_ok split change (e ∷ es) (o ∷ os) = elim (same_output o e) [
  | true ↦ outputs_ok split change es os
  | false ↦ false
]

-- Note IDs are well formed and distinct; `seen` are those before.
unfoldable pub notes_ok : List String → List String → Bool
notes_ok seen [] = true
notes_ok seen (n ∷ ns) = elim (plan_note_id (codes n) && not (mem n seen)) [
  | true ↦ notes_ok (n ∷ seen) ns
  | false ↦ false
]

header_ok : CreateRequest → Wallet → Network → TxPlan → Bool
header_ok request wallet network plan =
    str_eq plan.version "v0"
    && str_eq plan.kind (plan_kind request)
    && str_eq plan.wallet_id wallet.wallet_id
    && (plan.account == wallet.account)
    && str_eq plan.chain (node_chain network)
    && (plan.coin_type == coin_type_of network)

fee_ok : TxPlan → Bool
fee_ok plan =
    elim (parse_decimal_zat (codes plan.fee_zat)) [ none ↦ false | some n ↦ true ]
    && not (plan.expiry_height == 0)
    && not (length plan.notes == 0)

unfoldable pub plan_ok : CreateRequest → Wallet → Network → String → TxPlan → Bool
unfolding header_ok fee_ok
plan_ok request wallet network change plan =
    header_ok request wallet network plan
    && not (is_empty change)
    && str_eq plan.change_address change
    && leb (length plan.outputs) max_plan_outputs
    && outputs_ok (is_split request) change (plan_outputs change request) plan.outputs
    && fee_ok plan
    && notes_ok [] plan.notes

module _ (decode : String → Option TxPlan) (digest_of : String → String) where
  -- `validatePlan`; each refusal is `none`
  unfoldable pub validate_plan :
      String → CreateRequest → Wallet → Network → String → Option PlanResult
  validate_plan raw request wallet network change = elim (decode raw) [
    | none ↦ none
    | some plan ↦
        if not (is_empty raw) && plan_ok request wallet network change plan
        then some (record {
          bytes = raw;
          digest = digest_of raw;
          fee_zat = plan.fee_zat;
          expiry_height = plan.expiry_height;
          selected_note_ids = plan.notes;
          output_count = length plan.outputs;
        })
        else none
  ]

-- `sameStringSet`: the sorted lists are equal
same_list : List String → List String → Bool
same_list [] [] = true
same_list [] (y ∷ ys) = false
same_list (x ∷ xs) [] = false
same_list (x ∷ xs) (y ∷ ys) = elim (str_eq x y) [ true ↦ same_list xs ys | false ↦ false ]

unfoldable pub same_string_set : List String → List String → Bool
unfolding same_list
same_string_set left right =
    (length left == length right) && same_list (sort_strings left) (sort_strings right)

pub record SignerResult : Type 0 where
  pub txid : String
  pub raw_tx_hex : String
  pub fee_zat : String
  pub orchard_output_action_indices : List ℕ
  pub orchard_change_action_index : Option ℕ

abbrev pub mem_index : ℕ → List ℕ → Bool
mem_index i [] = false
mem_index i (j ∷ js) = i == j || mem_index i js

-- the indices are at most 199 and distinct; `seen` are those before
unfoldable pub indices_ok : List ℕ → List ℕ → Bool
indices_ok seen [] = true
indices_ok seen (i ∷ is) = elim (leb i 199 && not (mem_index i seen)) [
  | true ↦ indices_ok (i ∷ seen) is
  | false ↦ false
]

-- `validateSignerResult`, true where it returns no error
unfoldable pub validate_signer_result : SignerResult → ℕ → Bool
validate_signer_result r plan_outputs =
    (length r.orchard_output_action_indices == plan_outputs)
    && indices_ok [] r.orchard_output_action_indices
    && elim r.orchard_change_action_index [
      | none ↦ true
      | some c ↦ leb c 199 && not (mem_index c r.orchard_output_action_indices)
    ]
