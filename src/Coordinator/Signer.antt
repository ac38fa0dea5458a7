-- ===== src/Coordinator/Signer.antt =====
-- internal/coordinator/signer.go: `Sign` and `signerHTTPError`. The HTTP exchange with the signer and
-- the decoding of its answer are one argument, a `Reply`. Building the request is not modelled.
pub mod Accepted
use Prim.Native.String.{len}
use juno_exchange_gateway.Prelude.{
  ℕ, Bool, true, false, ◌||◌, ◌&&◌, not, Option, none, some, List, String, str_eq, is_empty, leb,
  ltb, ◌==◌, ◌%◌, all, if◌then◌else◌,
}
use juno_exchange_gateway.Domain.Hex.{codes, is_digit, is_lower_hex64}
use juno_exchange_gateway.Coordinator.Plan.{PlanResult, SignerResult}

pub record OperationError : Type 0 where
  pub code : String
  pub message : String
  pub retryable : Bool
  pub outcome_unknown : Bool

-- What a signer returns: `failed` is an error that is no `*operationError`.
pub data Answer : Type 0 where
  signature : SignerResult → Answer
  refused : OperationError → Answer
  failed : Answer

-- the decoded answer, its `data` and its `error` flattened
pub record Envelope : Type 0 where
  pub version : String
  pub status : String
  pub attempt_id : String
  pub plan_digest : String
  pub txid : String
  pub raw_tx_hex : String
  pub fee_zat : String
  pub orchard_output_action_indices : List ℕ
  pub orchard_change_action_index : Option ℕ
  pub code : String
  pub message : String

-- `body` holds the HTTP status, the length that was read, and the envelope if the JSON decodes.
pub data Reply : Type 0 where
  no_response no_body : Reply
  body : ℕ → ℕ → Option Envelope → Reply

op_error : String → String → Bool → Answer
op_error code message retryable =
    refused
      (record { code = code; message = message; retryable = retryable; outcome_unknown = false })

unknown_error : String → String → Answer
unknown_error code message =
    refused (record { code = code; message = message; retryable = true; outcome_unknown = true })

or_else : String → String → String
or_else s default = if is_empty s then default else s

is_rejection : String → Bool
is_rejection code = str_eq code "invalid_request" || str_eq code "plan_not_allowed"

is_uncertain : String → Bool
is_uncertain code =
    str_eq code "attempt_outcome_unknown"
    || str_eq code "signing_outcome_unknown"
    || str_eq code "attempt_digest_conflict"
    || str_eq code "journal_unsafe"
    || str_eq code "journal_unavailable"
    || str_eq code "journal_write_failed"

-- `hex.DecodeString` returns no error
is_hex : ℕ → Bool
is_hex c = is_digit c || (leb b'a' c && leb c b'f') || (leb b'A' c && leb c b'F')

-- `describe` is `fmt.Sprintf("signer returned HTTP %d", status)`
module _ (describe : ℕ → String) where
  -- `signerHTTPError`
  unfoldable pub signer_http_error : ℕ → String → String → OperationError
  unfolding or_else is_rejection is_uncertain
  signer_http_error status raw_code raw_message =
      let code = or_else raw_code "signer_unavailable" in
      let message = or_else raw_message (describe status) in
      if is_rejection code
      then record { code = code; message = message; retryable = false; outcome_unknown = false }
      else if str_eq code "signer_busy"
      then record { code = code; message = message; retryable = true; outcome_unknown = false }
      else if is_uncertain code
      then record {
        code = code;
        message = message;
        retryable = not (str_eq code "attempt_digest_conflict");
        outcome_unknown = true;
      }
      else record {
        code = code;
        message = message;
        retryable = leb 500 status || status == 429;
        outcome_unknown = leb 500 status;
      }

-- `to_lower` is `strings.ToLower`
module _ (describe : ℕ → String) (to_lower : String → String) where
  -- the data matches the plan that was sent
  matches : String → PlanResult → Envelope → Bool
  matches id plan e =
      str_eq e.attempt_id id
      && str_eq e.plan_digest plan.digest
      && is_lower_hex64 (codes e.txid)
      && not (is_empty e.raw_tx_hex)
      && str_eq e.raw_tx_hex (to_lower e.raw_tx_hex)
      && (len e.raw_tx_hex % 2 == 0)
      && str_eq e.fee_zat plan.fee_zat

  result_of : Envelope → SignerResult
  result_of e = record {
    txid = e.txid;
    raw_tx_hex = e.raw_tx_hex;
    fee_zat = e.fee_zat;
    orchard_output_action_indices = e.orchard_output_action_indices;
    orchard_change_action_index = e.orchard_change_action_index;
  }

  read_envelope : String → PlanResult → ℕ → Envelope → Answer
  read_envelope id plan status e =
      if not (str_eq e.version "v1")
      then op_error "signer_invalid_response" "signer returned invalid JSON" true
      else if not (status == 200) || not (str_eq e.status "ok")
      then refused (signer_http_error describe status e.code e.message)
      else if not (matches id plan e)
      then op_error "signer_invalid_response"
          "signer returned data that does not match the reserved plan" true
      else if not (all is_hex (codes e.raw_tx_hex))
      then op_error "signer_invalid_response" "signer returned invalid raw transaction hex" true
      else signature (result_of e)

  -- `Sign`, once the request is sent
  unfoldable pub sign : Reply → String → PlanResult → Answer
  unfolding op_error unknown_error matches result_of read_envelope is_hex
  sign no_response id plan =
      unknown_error "signer_unavailable" "signer response is unknown; notes remain reserved"
  sign no_body id plan =
      unknown_error "signer_unavailable" "signer response could not be read; notes remain reserved"
  sign (body status length decoded) id plan =
      if ltb 8388608 length
      then op_error "signer_invalid_response" "signer response exceeds the 8 MiB limit" true
      else elim decoded [
        | none ↦ op_error "signer_invalid_response" "signer returned invalid JSON" true
        | some e ↦ read_envelope id plan status e
      ]
