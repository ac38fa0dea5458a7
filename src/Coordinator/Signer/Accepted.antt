-- ===== src/Coordinator/Signer/Accepted.antt =====
-- What an answer of the signer rests on.
use juno_exchange_gateway.Prelude.{
  ℕ, ◌≡◌, ◌≢◌, ◌≤◌, true, false, none, some, String, str_eq_iff, arith, refl, str_eq,
}
use juno_exchange_gateway.Domain.Hex.{codes, is_lower_hex64}
use juno_exchange_gateway.Coordinator.Plan.{PlanResult, SignerResult}
use juno_exchange_gateway.Coordinator.Signer.{
  OperationError, signature, refused, Envelope, Reply, body, no_response, no_body, sign,
  signer_http_error, or_else, is_rejection, is_uncertain,
}

-- The signer said with status 200 that it signed this very plan, for this attempt and its fee.
pub record IsSigned (reply : Reply) (id : String) (plan : PlanResult) (r : SignerResult)
    : Type 0 where
  pub size : ℕ
  pub said : Envelope
  pub reply_eq : reply ≡ body 200 size (some said)
  pub status_eq : said.status ≡ "ok"
  pub attempt_eq : said.attempt_id ≡ id
  pub digest_eq : said.plan_digest ≡ plan.digest
  pub fee_eq : r.fee_zat ≡ plan.fee_zat
  pub txid_eq : r.txid ≡ said.txid
  pub txid_hex : is_lower_hex64 (codes r.txid) ≡ true
  pub raw_eq : r.raw_tx_hex ≡ said.raw_tx_hex
  pub raw_present : r.raw_tx_hex ≢ ""
  pub outputs_eq : r.orchard_output_action_indices ≡ said.orchard_output_action_indices

-- A signed transaction is taken only from a reply with status 200 and `ok` that names this attempt
-- and this plan's digest and fee; its ID is 64 lowercase hexadecimal digits, and its text is not
-- empty.
pub sign_sound :
    (describe : ℕ → String) (to_lower : String → String) (reply : Reply) (id : String)
    (plan : PlanResult) (r : SignerResult)
    → sign describe to_lower reply id plan ≡ signature r
    → IsSigned reply id plan r
unfolding sign
sign_sound describe to_lower no_response id plan r h = absurd (ground arith)
sign_sound describe to_lower no_body id plan r h = absurd (ground arith)
sign_sound describe to_lower (body status size none) id plan r h = absurd (ground arith)
sign_sound describe to_lower (body status size (some e)) id plan r h = record {
  size = size;
  said = e;
  reply_eq = ground arith;
  status_eq = ground (arith, str_eq_iff e.status "ok");
  attempt_eq = ground (arith, str_eq_iff e.attempt_id id);
  digest_eq = ground (arith, str_eq_iff e.plan_digest plan.digest);
  fee_eq = ground (arith, str_eq_iff e.fee_zat plan.fee_zat);
  txid_eq = ground arith;
  txid_hex = ground arith;
  raw_eq = ground arith;
  raw_present = ground (arith, str_eq_iff e.raw_tx_hex "");
  outputs_eq = ground arith;
}

default_code :
    (str_eq "signer_unavailable" "invalid_request" ≡ false)
    × (str_eq "signer_unavailable" "plan_not_allowed" ≡ false)
    × (str_eq "signer_unavailable" "signer_busy" ≡ false)
unfolding str_eq
default_code = (refl, refl, refl)

server_error :
    (describe : ℕ → String) (status : ℕ) (code message : String)
    → 500 ≤ status
    → code ≢ "invalid_request"
    → code ≢ "plan_not_allowed"
    → code ≢ "signer_busy"
    → (signer_http_error describe status code message).outcome_unknown ≡ true
unfolding signer_http_error or_else is_rejection is_uncertain
server_error describe status code message server n1 n2 n3 = ground (
  arith,
  default_code,
  str_eq_iff code "invalid_request",
  str_eq_iff code "plan_not_allowed",
  str_eq_iff code "signer_busy",
)

-- A decoded version 1 reply with a status of 500 or more, at most 8 MiB long, counts as an unknown
-- outcome, unless its code rejects the request or says that the signer is busy.
pub sign-unknown :
    (describe : ℕ → String) (to_lower : String → String) (status size : ℕ) (said : Envelope)
    (id : String) (plan : PlanResult) (e : OperationError)
    → size ≤ 8388608
    → said.version ≡ "v1"
    → 500 ≤ status
    → said.code ≢ "invalid_request"
    → said.code ≢ "plan_not_allowed"
    → said.code ≢ "signer_busy"
    → sign describe to_lower (body status size (some said)) id plan ≡ refused e
    → e.outcome_unknown ≡ true
unfolding sign
sign-unknown describe to_lower status size said id plan e small v server n1 n2 n3 h = ground (
  arith,
  str_eq_iff said.version "v1",
  server_error describe status said.code said.message server n1 n2 n3,
)
