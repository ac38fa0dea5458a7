-- ===== src/Tests/Signer.antt =====
-- Two replies of the signer.
use juno_exchange_gateway.Domain.Hex.{is_lower_hex, is_lower_hex64}
use juno_exchange_gateway.Prelude.{
  ℕ, ◌≡◌, ◌≢◌, refl, true, false, none, some, [], ◌∷◌, String, str_eq, ap, arith,
}
use juno_exchange_gateway.Coordinator.Plan.{SignerResult}
use juno_exchange_gateway.Coordinator.Signer.{
  signature, refused, OperationError, Envelope, body, sign, signer_http_error,
}
use juno_exchange_gateway.Coordinator.Signer.Accepted.{IsSigned, sign_sound, sign-unknown}
use juno_exchange_gateway.Tests.Requests.{result}

abbrev txid : String
txid = "bbbbbbbbbbbbbbbbbbbbbbbbbbbbbbbbbbbbbbbbbbbbbbbbbbbbbbbbbbbbbbbb"

abbrev said : Envelope
said = record {
  version = "v1";
  status = "ok";
  attempt_id = "txn_1";
  plan_digest = "plan";
  txid = txid;
  raw_tx_hex = "00ff";
  fee_zat = "10000";
  orchard_output_action_indices = 0 ∷ 2 ∷ 4 ∷ [];
  orchard_change_action_index = none;
  code = "";
  message = "";
}

abbrev signed_result : SignerResult
signed_result = record {
  txid = txid;
  raw_tx_hex = "00ff";
  fee_zat = "10000";
  orchard_output_action_indices = 0 ∷ 2 ∷ 4 ∷ [];
  orchard_change_action_index = none;
}

abbrev describe : ℕ → String
describe n = "signer returned an error"

abbrev to_lower : String → String
to_lower s = s

reply_signed :
    sign describe to_lower (body 200 300 (some said)) "txn_1" result ≡ signature signed_result
unfolding sign str_eq is_lower_hex64 is_lower_hex
reply_signed = refl

sign_sound_example : IsSigned (body 200 300 (some said)) "txn_1" result signed_result
sign_sound_example =
    sign_sound describe to_lower (body 200 300 (some said)) "txn_1" result signed_result
      reply_signed

abbrev broken : Envelope
broken = record said { status = "error"; code = "journal_unsafe" }

abbrev unknown : OperationError
unknown = record {
  code = "journal_unsafe";
  message = "signer returned an error";
  retryable = true;
  outcome_unknown = true;
}

reply_broken : sign describe to_lower (body 500 300 (some broken)) "txn_1" result ≡ refused unknown
unfolding sign str_eq signer_http_error
reply_broken = refl

differs : (s : String) → str_eq "journal_unsafe" s ≡ false → (◌≢◌ {A = String} "journal_unsafe" s)
unfolding str_eq
differs s f e =
    let t : true ≡ str_eq "journal_unsafe" s = ap (str_eq "journal_unsafe") e in absurd (cc (t, f))

sign-unknown_example : unknown.outcome_unknown ≡ true
unfolding str_eq
sign-unknown_example =
    sign-unknown describe to_lower 500 300 broken "txn_1" result unknown (omega arith) refl
      (omega arith) (differs "invalid_request" refl) (differs "plan_not_allowed" refl)
      (differs "signer_busy" refl) reply_broken
