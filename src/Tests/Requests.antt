-- ===== src/Tests/Requests.antt =====
-- The theorems on requests, plans and signer answers at a withdrawal of two outputs.
use juno_exchange_gateway.Tests.Sample.{config, wallet}
use juno_exchange_gateway.Domain.Hex.{
  decimal, is_digit, is_lower_hex, leading_zero, parse_decimal_zat, parse_uint, plan_note_id,
}
use juno_exchange_gateway.Prelude.{
  ℕ, ◌≡◌, ◌≤◌, refl, true, none, some, [], ◌∷◌, String, length, arith, trim_space, str_eq, Option,
  if◌then◌else◌, ◌↔◌, false,
}
use juno_exchange_gateway.Domain.Network.{regtest, node_chain}
use juno_exchange_gateway.Coordinator.Request.{
  Output, CreateRequest, plan_outputs, normalize_create_request, address_prefix, normalize_outputs,
  output_amount, is_split,
}
use juno_exchange_gateway.Coordinator.Request.Bounds.{IsBounded, normalize_create_request-bounds}
use juno_exchange_gateway.Coordinator.Plan.{
  TxPlan, PlanResult, SignerResult, validate_plan, validate_signer_result, mem_index, indices_ok,
  plan_ok, plan_kind, coin_type_of, outputs_ok, same_output, is_split_change, notes_ok,
}
use juno_exchange_gateway.Coordinator.Plan.Accepted.{
  IsApproved, IsActionMap, validate_plan_sound, validate_signer_result_iff,
}

abbrev pay : String → String → String → Output
pay address amount memo = record { to_address = address; amount_zat = amount; memo_hex = memo }

abbrev pub raw : CreateRequest
raw = record {
  wallet_id = "hot";
  approval_reference = " ticket-1";
  outputs = pay "jregtest1a" "70" "" ∷ pay "jregtest1b " "5" "00ff" ∷ [];
  split = none;
}

abbrev pub request : CreateRequest
request = record {
  wallet_id = "hot";
  approval_reference = "ticket-1";
  outputs = pay "jregtest1a" "70" "" ∷ pay "jregtest1b" "5" "00ff" ∷ [];
  split = none;
}

accepted : normalize_create_request config wallet raw ≡ some request
unfolding normalize_create_request str_eq trim_space normalize_outputs output_amount address_prefix
    parse_decimal_zat leading_zero parse_uint is_digit decimal is_lower_hex
accepted = refl

normalize_create_request-bounds_example : IsBounded config (plan_outputs "jregtest1c" request)
normalize_create_request-bounds_example =
    normalize_create_request-bounds config wallet raw request "jregtest1c" (omega arith) accepted

abbrev pub note : String
note = "aaaaaaaaaaaaaaaaaaaaaaaaaaaaaaaaaaaaaaaaaaaaaaaaaaaaaaaaaaaaaaaa:3"

abbrev pub plan : TxPlan
plan = record {
  version = "v0";
  kind = "withdrawal";
  wallet_id = "hot";
  coin_type = 8135;
  account = 0;
  chain = "regtest";
  expiry_height = 120;
  outputs = pay "jregtest1a" "70" "" ∷ pay "jregtest1b" "5" "00ff" ∷ pay "jregtest1c" "900" "" ∷ [];
  change_address = "jregtest1c";
  fee_zat = "10000";
  notes = note ∷ [];
}

-- a decoder that reads one document
abbrev decode : String → Option TxPlan
decode s = if str_eq s "plan" then some plan else none

abbrev digest : String → String
digest s = s

abbrev pub result : PlanResult
result = record {
  bytes = "plan";
  digest = "plan";
  fee_zat = "10000";
  expiry_height = 120;
  selected_note_ids = note ∷ [];
  output_count = 3;
}

plan_accepted : validate_plan decode digest "plan" request wallet regtest "jregtest1c" ≡ some result
unfolding validate_plan str_eq plan_ok plan_kind node_chain coin_type_of outputs_ok plan_outputs
    same_output is_split_change parse_decimal_zat leading_zero parse_uint is_digit decimal notes_ok
    plan_note_id is_lower_hex is_split
plan_accepted = refl

abbrev pub answer : SignerResult
answer = record {
  txid = "tx-1";
  raw_tx_hex = "00";
  fee_zat = "10000";
  orchard_output_action_indices = 4 ∷ 0 ∷ 2 ∷ [];
  orchard_change_action_index = some 1;
}

answer_accepted : validate_signer_result answer 3 ≡ true
unfolding validate_signer_result indices_ok
answer_accepted = refl

validate_plan_sound_example :
    (p : TxPlan) × (decode "plan" ≡ some p)
    × IsApproved request wallet regtest "jregtest1c" p
    × (result.bytes ≡ "plan")
    × (result.digest ≡ digest "plan")
    × (result.fee_zat ≡ p.fee_zat)
    × (result.expiry_height ≡ p.expiry_height)
    × (result.selected_note_ids ≡ p.notes)
    × (result.output_count ≡ length p.outputs)
validate_plan_sound_example =
    validate_plan_sound decode digest "plan" request wallet regtest "jregtest1c" result
      plan_accepted

validate_signer_result_iff_example : (validate_signer_result answer 3 ≡ true) ↔ (
    (length answer.orchard_output_action_indices ≡ 3)
    × IsActionMap [] answer.orchard_output_action_indices
    × ((c : ℕ)
        → answer.orchard_change_action_index ≡ some c
        → (c ≤ 199) × (mem_index c answer.orchard_output_action_indices ≡ false)))
validate_signer_result_iff_example = validate_signer_result_iff answer 3
