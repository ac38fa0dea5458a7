-- ===== src/Coordinator/Signing.antt =====
-- internal/coordinator/service.go: `decodeRequest`, `signAttempt` and the helpers that mark an
-- attempt. While the signer works, other requests and workers may use the store: `others` is what
-- they leave of it.
pub mod Walk
pub mod Known
pub mod Reaches
use juno_exchange_gateway.Prelude.{
  ℕ, Bool, true, false, ◌||◌, ◌&&◌, not, Option, none, some, List, String, str_eq, ◌==◌, length,
  if◌then◌else◌,
}
use juno_exchange_gateway.State.{
  State, reserved, signing, signing_unknown, planning, failed_unsigned, same_state,
}
use juno_exchange_gateway.Db.{Attempt, Db, Outcome, ok, err}
use juno_exchange_gateway.Attempts.Queries.{limit_to}
use juno_exchange_gateway.Attempts.Mark.{Mark, mark_attempt_state}
use juno_exchange_gateway.Attempts.Signing.{Signed, begin_attempt_signing, complete_attempt_signing}
use juno_exchange_gateway.Coordinator.Request.{
  Config, Wallet, CreateRequest, plan_outputs, normalize_create_request,
}
use juno_exchange_gateway.Coordinator.Plan.{
  TxPlan, PlanResult, SignerResult, validate_plan, same_string_set, validate_signer_result,
}
use juno_exchange_gateway.Coordinator.Signer.{OperationError, Answer, signature, refused, failed}

-- `encoding/json`, `crypto/sha256` and the texts of errors, and the configured wallets
pub record Env : Type 0 where
  pub cfg : Config
  pub wallet_of : String → Option Wallet
  pub read_request : String → Option CreateRequest
  pub canonical : CreateRequest → String
  pub request_digest : String → String
  pub read_plan : String → Option TxPlan
  pub plan_digest : String → String
  pub mapping_error : SignerResult → ℕ → String

unfoldable pub mark_with : Option State → String → String → Bool → Bool → Mark
mark_with state code message retryable release = record {
  state = state;
  code = code;
  message = message;
  retryable = retryable;
  release = release;
}

-- `failUnsignedWith`
unfoldable pub fail_unsigned_with : String → String → String → Bool → ℕ → Db → Db
unfolding mark_with
fail_unsigned_with id code message retryable now db =
    (mark_attempt_state id (mark_with (some failed_unsigned) code message retryable true) now db).1

-- `failUnsigned`
unfoldable pub fail_unsigned : String → String → String → ℕ → Db → Db
fail_unsigned id code message now db = fail_unsigned_with id code message false now db

-- `recordPlanningError`
unfoldable pub record_planning_error : String → String → String → Bool → ℕ → Db → Db
unfolding mark_with
record_planning_error id code message retryable now db =
    (mark_attempt_state id (mark_with (some planning) code message retryable false) now db).1

-- `markSigningUnknown`
unfoldable pub mark_signing_unknown : String → String → String → Bool → ℕ → Db → Db
unfolding mark_with
mark_signing_unknown id code message retryable now db =
    (mark_attempt_state id (mark_with (some signing_unknown) code message retryable false) now db).1

-- back to `reserved`, after the signer refused for now
unfoldable pub mark_reserved : String → String → String → ℕ → Db → Db
unfolding mark_with
mark_reserved id code message now db =
    (mark_attempt_state id (mark_with (some reserved) code message true false) now db).1

pub data Decoded : Type 0 where
  decoded : CreateRequest → Wallet → Decoded
  undecodable : String → Decoded

abbrev pub uncertain : Attempt → Bool
uncertain a = same_state a.state signing || same_state a.state signing_unknown

on_refused : Bool → String → OperationError → ℕ → Db → Db
on_refused uncertain_before id e now db =
    if uncertain_before || e.outcome_unknown
    then mark_signing_unknown id e.code e.message e.retryable now db
    else if e.retryable
    then mark_reserved id e.code e.message now db
    else fail_unsigned_with id e.code e.message false now db

on_failed : OperationError
on_failed = record {
  code = "signer_unavailable";
  message = "signer result is unknown; notes remain reserved";
  retryable = true;
  outcome_unknown = true;
}

-- what is stored of an accepted result: only the approved outputs are mapped
unfoldable pub stored_result : Attempt → CreateRequest → SignerResult → Signed
stored_result a request r = record {
  txid = r.txid;
  raw_tx_hex = r.raw_tx_hex;
  fee_zat = r.fee_zat;
  output_indices =
      limit_to (length (plan_outputs a.change_address request)) r.orchard_output_action_indices;
  change_index = r.orchard_change_action_index;
}

-- the plan of the row is not the one that was reserved
on_bad_plan : Attempt → ℕ → Db → Db
on_bad_plan a now db =
    if same_state a.state reserved
    then fail_unsigned a.attempt_id "stored_plan_invalid"
        "reserved TxPlan failed integrity validation" now db
    else mark_signing_unknown a.attempt_id "stored_plan_invalid"
        "TxPlan integrity failed after signing may have begun" false now db

module _ (env : Env) where
  -- the stored request is normalised, and what was approved
  is_intact : Attempt → CreateRequest → Bool
  is_intact a r =
      str_eq (env.request_digest (env.canonical r)) a.request_digest
      && str_eq (env.canonical r) a.request_json

  -- `decodeRequest`
  unfoldable pub decode_request : Attempt → Decoded
  unfolding is_intact
  decode_request a = elim (env.wallet_of a.wallet_id) [
    | none ↦ undecodable "stored wallet is not configured"
    | some wallet ↦ elim (env.read_request a.request_json) [
      | none ↦ undecodable "stored request JSON is invalid"
      | some raw ↦ elim (normalize_create_request env.cfg wallet raw) [
        | none ↦ undecodable "stored request integrity validation failed"
        | some r ↦
            if is_intact a r
            then decoded r wallet
            else undecodable "stored request integrity validation failed"
      ]
    ]
  ]

  same_plan : Attempt → PlanResult → Bool
  same_plan a p =
      str_eq p.digest a.plan_digest
      && str_eq p.fee_zat a.fee_zat
      && (p.expiry_height == a.expiry_height)
      && same_string_set p.selected_note_ids a.selected_note_ids

  -- the stored plan, validated again and compared with the row
  unfoldable pub stored_plan : Attempt → CreateRequest → Wallet → Option PlanResult
  unfolding same_plan
  stored_plan a request wallet =
      elim (validate_plan env.read_plan env.plan_digest a.plan_json request wallet env.cfg.network
        a.change_address) [ none ↦ none | some p ↦ if same_plan a p then some p else none ]

  on_signature : Attempt → CreateRequest → String → PlanResult → SignerResult → ℕ → Db → Bool × Db
  on_signature a request id p r now db =
      if validate_signer_result r p.output_count
      then elim (complete_attempt_signing id (stored_result a request r) now db).0 [
        | ok u ↦ (true, (complete_attempt_signing id (stored_result a request r) now db).1)
        | err e ↦ (false, (complete_attempt_signing id (stored_result a request r) now db).1)
      ]
      else (
        false,
        mark_signing_unknown id "signer_invalid_response" (env.mapping_error r p.output_count) true
            now db,
      )

  -- The signer has answered for the row that `BeginAttemptSigning` returned.
  unfoldable pub on_answer :
      Attempt → CreateRequest → String → PlanResult → Answer → ℕ → Db → Bool × Db
  unfolding on_failed on_refused on_signature
  on_answer a request id p (signature r) now db = on_signature a request id p r now db
  on_answer a request id p (refused e) now db = (false, on_refused (uncertain a) id e now db)
  on_answer a request id p failed now db = (false, on_refused (uncertain a) id on_failed now db)

  -- The signer is called with the plan of the row.
  sign_stored :
      (String → PlanResult → Answer)
      → (Db → Db)
      → Attempt
      → CreateRequest
      → PlanResult
      → ℕ
      → Db
      → Bool × Db
  sign_stored signer others a request p now db =
      elim (begin_attempt_signing a.attempt_id now db).0 [
        | err e ↦ (false, (begin_attempt_signing a.attempt_id now db).1)
        | ok row ↦
            on_answer a request row.attempt_id (record p { bytes = row.plan_json })
              (signer row.attempt_id (record p { bytes = row.plan_json })) now
              (others (begin_attempt_signing a.attempt_id now db).1)
      ]

  -- `signAttempt`
  unfoldable pub sign_attempt :
      (String → PlanResult → Answer) → (Db → Db) → Attempt → ℕ → Db → Bool × Db
  unfolding sign_stored on_bad_plan
  sign_attempt signer others a now db = elim (decode_request a) [
    | undecodable message ↦
        (false, mark_signing_unknown a.attempt_id "stored_request_invalid" message false now db)
    | decoded request wallet ↦ elim (stored_plan a request wallet) [
      | none ↦ (false, on_bad_plan a now db)
      | some p ↦ sign_stored signer others a request p now db
    ]
  ]
