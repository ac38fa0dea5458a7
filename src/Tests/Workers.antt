-- ===== src/Tests/Workers.antt =====
-- Signing the reserved sample attempt, and a worker that does so.
use juno_exchange_gateway.Attempts.Signing.{
  begin_attempt_signing, begin_for, complete_attempt_signing, to_signed, to_signing,
}
use juno_exchange_gateway.Attempts.Reserve.{sort_strings}
use juno_exchange_gateway.Attempts.Queries.{limit_to}
use juno_exchange_gateway.Attempts.Mark.{mark_attempt_state, marked, touch}
use juno_exchange_gateway.Domain.Hex.{
  decimal, is_digit, is_lower_hex, leading_zero, parse_decimal_zat, parse_uint, plan_note_id,
}
use juno_exchange_gateway.Coordinator.Request.{
  address_prefix, is_split, normalize_create_request, normalize_outputs, normalize_split,
  normalize_withdrawal, output_amount, plan_outputs,
}
use juno_exchange_gateway.Domain.Network.{network_name, node_chain}
use mathlib.Core.Path.{subst}
use juno_exchange_gateway.Prelude.{
  ◌≡◌, ◌≢◌, refl, true, false, none, some, [], ◌∷◌, String, str_eq, is_space, str_lt, trim_left,
  trim_right, trim_space, ℕ,
}
use juno_exchange_gateway.State.{
  State, reserved, signing_unknown, allowed_attempt_transition, safe_reservation_release_transition,
  terminal_attempt_state,
}
use juno_exchange_gateway.Db.{
  Attempt, Db, find_attempt, delete_reservations, insert_attempt_event, update_attempt,
}
use juno_exchange_gateway.Attempts.States.{StateIs}
use juno_exchange_gateway.Safety.Reach.{Reach, here}
use juno_exchange_gateway.Coordinator.Plan.{
  PlanResult, coin_type_of, indices_ok, is_split_change, notes_ok, outputs_ok, plan_kind, plan_ok,
  same_output, same_string_set, validate_plan, validate_signer_result,
}
use juno_exchange_gateway.Coordinator.Signer.{Answer, signature, refused, OperationError}
use juno_exchange_gateway.Coordinator.Signing.{
  Env, sign_attempt, decode_request, fail_unsigned, fail_unsigned_with, mark_reserved,
  mark_signing_unknown, mark_with, on_answer, stored_plan, stored_result,
}
use juno_exchange_gateway.Coordinator.Signing.Known.{
  HasSignature, may_be_signed, sign_attempt-uncertain, sign_attempt-signed,
}
use juno_exchange_gateway.Coordinator.Planning.{planned, options, split_policy, widen, PlanAnswer}
use juno_exchange_gateway.Coordinator.Planning.Widen.{IsWide, widen-IsWide, IsPlannedFor}
use juno_exchange_gateway.Coordinator.Process.{StepWorld, process}
use juno_exchange_gateway.Coordinator.Process.Reaches.{Fair, process-Reach}
use juno_exchange_gateway.Tests.Sample.{config, wallet}
use juno_exchange_gateway.Tests.Requests.{raw, request, plan, answer, result}
use juno_exchange_gateway.Tests.Proof.{row, db_of, answers, unspent}

-- one document of each kind is read, and a digest is constant
abbrev env : Env
env = record {
  cfg = config;
  wallet_of = λ id. some wallet;
  read_request = λ s. some raw;
  canonical = λ r. "{}";
  request_digest = λ s. "digest";
  read_plan = λ s. some plan;
  plan_digest = λ s. "plan";
  mapping_error = λ r n. "";
}

abbrev planned_row : State → Attempt
planned_row state = record (row state) {
  change_address = "jregtest1c";
  plan_json = "plan";
  plan_digest = "plan";
  fee_zat = "10000";
}

abbrev planned_db : State → Db
planned_db state = record (db_of state) { attempts = planned_row state ∷ [] }

abbrev signs : String → PlanResult → Answer
signs id p = signature answer

abbrev rejection : OperationError
rejection = record {
  code = "plan_not_allowed";
  message = "no";
  retryable = false;
  outcome_unknown = false;
}

abbrev rejects : String → PlanResult → Answer
rejects id p = refused rejection

abbrev alone : Db → Db
alone d = d

planned_state : (P : State → Type 0) (s : State) → P s → StateIs P "txn_1" (planned_db s)
unfolding find_attempt str_eq
planned_state P s p b h = let e : planned_row s ≡ b = cc h in subst (λ a. P a.state) e p

signed_found :
    find_attempt "txn_1"
      (sign_attempt env signs alone (planned_row reserved) 7 (planned_db reserved)).1.attempts
    ≡ some (record (planned_row State.signed) {
      txid = "tx-1";
      raw_tx_hex = "00";
      orchard_output_action_indices = 4 ∷ 0 ∷ [];
      orchard_change_action_index = some 1;
      updated_at = 7;
    })
unfolding sign_attempt find_attempt decode_request normalize_create_request str_eq trim_space
    normalize_outputs output_amount address_prefix parse_decimal_zat leading_zero parse_uint
    is_digit decimal is_lower_hex stored_plan validate_plan plan_ok mark_attempt_state marked touch
    limit_to sort_strings begin_attempt_signing begin_for complete_attempt_signing to_signed
    to_signing coin_type_of indices_ok is_split_change notes_ok outputs_ok plan_kind same_output
    same_string_set validate_signer_result is_split normalize_split normalize_withdrawal
    plan_outputs fail_unsigned fail_unsigned_with mark_reserved mark_signing_unknown mark_with
    on_answer stored_result delete_reservations insert_attempt_event update_attempt plan_note_id
    node_chain str_lt is_space trim_left trim_right allowed_attempt_transition
    safe_reservation_release_transition terminal_attempt_state
signed_found = refl

sign_attempt-signed_example : HasSignature env signs (planned_row reserved) (planned_db reserved)
sign_attempt-signed_example =
    sign_attempt-signed env signs alone (planned_row reserved) 7 (planned_db reserved)
      (record (planned_row State.signed) {
        txid = "tx-1";
        raw_tx_hex = "00";
        orchard_output_action_indices = 4 ∷ 0 ∷ [];
        orchard_change_action_index = some 1;
        updated_at = 7;
      })
      (λ d h. h) (planned_state (λ s. s ≢ State.signed) reserved (λ e. absurd (cc e))) signed_found
      refl

sign_attempt-uncertain_example :
    StateIs
      (λ s. may_be_signed s ≡ true)
      "txn_1"
      (sign_attempt env rejects alone
        (planned_row signing_unknown)
        7
        (planned_db signing_unknown)).1
sign_attempt-uncertain_example =
    sign_attempt-uncertain env rejects alone (planned_row signing_unknown) 7
      (planned_db signing_unknown) refl (λ d h. h)
      (planned_state (λ s. may_be_signed s ≡ true) signing_unknown refl)

abbrev world : StepWorld
world = record {
  before = alone;
  planning = record {
    planner = λ r w change call excluded split. planned result;
    others = λ k d. d;
    counted = some 2;
    allocated = some "jregtest1c";
  };
  signer = signs;
  signing_others = alone;
  answers = answers none unspent;
  now = 7;
}

world-Fair : Fair "regtest" world
world-Fair = record { before = λ d. here; planning = λ k d. here; signing = λ d. here }

process-Reach_example :
    Reach "regtest"
      (planned_db reserved)
      (process env (λ k. world) false "txn_1" (planned_db reserved))
unfolding network_name
process-Reach_example =
    process-Reach env (λ k. world) false "txn_1" (planned_db reserved) (λ j. world-Fair)

abbrev two_notes : PlanResult
two_notes = record result { selected_note_ids = "n1" ∷ "n2" ∷ [] }

abbrev wider_plan : PlanResult
wider_plan = record two_notes { bytes = "wider" }

-- the split for one note is 2, and for two notes 3
abbrev asks : ℕ → ℕ → PlanAnswer
asks step split = planned wider_plan

widened_once :
    widen asks
      (split_policy config request (some 7))
      config.change_split_max
      two_notes
      (options (split_policy config request (some 7)) 1)
    ≡ (wider_plan, 3)
unfolding widen split_policy options is_split
widened_once = refl

widen-IsWide_example :
    IsPlannedFor asks config.change_split_max two_notes
      (options (split_policy config request (some 7)) 1)
      wider_plan
      3
    × IsWide asks config.change_split_max (split_policy config request (some 7)) (wider_plan, 3)
widen-IsWide_example = widen-IsWide asks config request (some 7) two_notes wider_plan 3 widened_once
