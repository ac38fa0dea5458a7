-- ===== src/Coordinator/Request.antt =====
-- internal/coordinator/types.go: requests and their normalisation. A rejected request is `none`; the
-- coordinator answers each rejection with the code `invalid_request`, and the texts of the reasons
-- are not modelled. The canonical JSON and its SHA-256 digest are made from the result.
pub mod Bounds
use Prim.Native.String.{len}
use text.Mathlib.Text.{starts_with}
use juno_exchange_gateway.Prelude.{
  ℕ, zero, suc, ◌+◌, ◌-◌, ◌*◌, ◌/◌, ◌%◌, ◌^◌, Bool, true, false, ◌&&◌, ◌||◌, not, Option, none,
  some, List, [], ◌∷◌, String, str_eq, is_empty, trim_space, ltb, leb, ◌==◌, length, all,
  if◌then◌else◌,
}
use juno_exchange_gateway.Domain.Network.{Network, mainnet, testnet, regtest}
use juno_exchange_gateway.Domain.Hex.{codes, is_lower_hex, parse_decimal_zat}

-- the settings of internal/config/config.go that the coordinator reads
pub record Config : Type 0 where
  pub network : Network
  pub default_confirmations : ℕ
  pub max_outputs : ℕ
  pub max_amount_zat : ℕ
  pub min_note_zat : ℕ
  pub max_replans : ℕ
  pub target_notes : ℕ
  pub change_split_max : ℕ
  pub note_summary_max_notes : ℕ

pub record Wallet : Type 0 where
  pub wallet_id : String
  pub account : ℕ

pub record Output : Type 0 where
  pub to_address : String
  pub amount_zat : String
  pub memo_hex : String

pub record NoteSplit : Type 0 where
  pub note_count : ℕ
  pub note_zat : String

pub record CreateRequest : Type 0 where
  pub wallet_id : String
  pub approval_reference : String
  pub outputs : List Output
  pub split : Option NoteSplit

unfoldable pub is_split : CreateRequest → Bool
is_split r = elim r.split [ none ↦ false | some s ↦ true ]

repeat_output : ℕ → Output → List Output
repeat_output zero o = []
repeat_output (suc n) o = o ∷ repeat_output n o

-- `planOutputs`
unfoldable pub plan_outputs : String → CreateRequest → List Output
unfolding repeat_output
plan_outputs change_address r = elim r.split [
  | none ↦ r.outputs
  | some s ↦
      repeat_output s.note_count
        (record { to_address = change_address; amount_zat = s.note_zat; memo_hex = "" })
]

-- `AddressHRP() + "1"`
unfoldable pub address_prefix : Network → String
address_prefix mainnet = "j1"
address_prefix testnet = "jtest1"
address_prefix regtest = "jregtest1"

trimmed : Output → Output
trimmed o = record {
  to_address = trim_space o.to_address;
  amount_zat = trim_space o.amount_zat;
  memo_hex = trim_space o.memo_hex;
}

memo_ok : String → Bool
memo_ok memo = leb (len memo) 1024 && (len memo % 2 == 0) && all is_lower_hex (codes memo)

-- The amount of a trimmed output, if the output is accepted after outputs of `total`.
unfoldable pub output_amount : Config → ℕ → Output → Option ℕ
unfolding memo_ok
output_amount cfg total o =
    if not (is_empty o.to_address)
      && starts_with o.to_address (address_prefix cfg.network)
      && memo_ok o.memo_hex
    then elim (parse_decimal_zat (codes o.amount_zat)) [
      | none ↦ none
      | some amount ↦
          if amount == 0 || ltb cfg.max_amount_zat amount || ltb (cfg.max_amount_zat - amount) total
          then none
          else some amount
    ]
    else none

-- The loop over the outputs, with the `uint64` total.
unfoldable pub normalize_outputs : Config → ℕ → List Output → Option (List Output × ℕ)
unfolding trimmed
normalize_outputs cfg total [] = some ([], total)
normalize_outputs cfg total (o ∷ os) = elim (output_amount cfg total (trimmed o)) [
  | none ↦ none
  | some amount ↦ elim (normalize_outputs cfg ((total + amount) % 2 ^ 64) os) [
    | none ↦ none
    | some (rest, sum) ↦ some (trimmed o ∷ rest, sum)
  ]
]

split_ok : Config → NoteSplit → Bool
split_ok cfg s =
    leb 2 s.note_count
    && leb s.note_count cfg.max_outputs
    && elim (parse_decimal_zat (codes s.note_zat)) [
      | none ↦ false
      | some note_zat ↦
          not (note_zat == 0)
          && leb cfg.min_note_zat note_zat
          && leb note_zat (cfg.max_amount_zat / s.note_count)
    ]

unfoldable pub normalize_split : Config → CreateRequest → NoteSplit → Option CreateRequest
unfolding split_ok
normalize_split cfg r s =
    let s' = record s { note_zat = trim_space s.note_zat } in
    if (length r.outputs == 0) && split_ok cfg s' then some (record r { split = some s' }) else none

unfoldable pub normalize_withdrawal : Config → CreateRequest → Option CreateRequest
normalize_withdrawal cfg r =
    if leb 1 (length r.outputs) && leb (length r.outputs) cfg.max_outputs
    then elim (normalize_outputs cfg 0 r.outputs) [
      | none ↦ none
      | some (outputs, total) ↦ some (record r { outputs = outputs })
    ]
    else none

-- `normalizeCreateRequest`
unfoldable pub normalize_create_request : Config → Wallet → CreateRequest → Option CreateRequest
unfolding normalize_split normalize_withdrawal
normalize_create_request cfg wallet raw =
    let r = record raw {
      wallet_id = trim_space raw.wallet_id;
      approval_reference = trim_space raw.approval_reference;
    } in
    if str_eq r.wallet_id wallet.wallet_id
      && not (is_empty r.approval_reference)
      && leb (len r.approval_reference) 128
    then elim r.split [ none ↦ normalize_withdrawal cfg r | some s ↦ normalize_split cfg r s ]
    else none
