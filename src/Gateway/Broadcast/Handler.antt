-- ===== src/Gateway/Broadcast/Handler.antt =====
-- internal/api/api.go: `receiptLease`, `completeAndWrite`, `completeErrorAndWrite` and `handleBroadcast`.
use Prim.Native.String.{◌++◌ as append}
use juno_exchange_gateway.Gateway.Broadcast.{
  Stored, Verdict, completed, abandoned, BroadcastData, BroadcastRequest, NodeCall, NodeReplies,
  ask_node, stored_data, stored_error,
}
use juno_exchange_gateway.Gateway.Auth.{Principal, has_wallet}
use juno_exchange_gateway.Gateway.Requests.{
  Body, decode_json, is_idempotency_key, is_raw_tx_hex, is_txid, is_wallet_id,
}
use juno_exchange_gateway.Receipts.{
  Receipt, Claim, conflict, in_progress, replay, acquired, abandon_receipt, claim_receipt,
  complete_receipt,
}
use juno_exchange_gateway.Gateway.Response.{Response, data_of, error_of, fail_with}
use juno_exchange_gateway.Prelude.{
  Bool, List, Option, String, [], false, if◌then◌else◌, none, not, some, trim_space, true, ℕ, ◌∷◌,
}

-- What the handler calls: `hash` is SHA-256 of the parts with a zero byte between them, in hexadecimal,
-- and the other two are JSON.
pub record Libraries : Type 0 where
  pub hash : List String → String
  pub marshal : Stored → String
  pub unmarshal : String → Option Stored

pub record BroadcastConfig : Type 0 where
  pub broadcast_body_bytes : ℕ
  pub idempotency_lease : ℕ

-- What happens around a request: when it claims and when it ends, what the others do to the receipts
-- in between, and whether the heartbeat had an error.
pub record Surroundings : Type 0 where
  pub claimed_at : ℕ
  pub ended_at : ℕ
  pub meanwhile : List Receipt → List Receipt
  pub lost : Bool

-- `receiptLease.Abandon`, the error of the update ignored
unfoldable pub abandon : String → String → ℕ → Bool → List Receipt → List Receipt
abandon key digest generation lost rows =
    if lost
    then rows
    else elim (abandon_receipt key digest generation rows) [ none ↦ rows | some after ↦ after ]

-- `receiptLease.Complete`: whether it succeeds, and the receipts
unfoldable pub complete :
    String → String → ℕ → ℕ → String → Bool → ℕ → List Receipt → Bool × List Receipt
complete key digest generation status response lost now rows =
    if lost
    then (false, rows)
    else elim (complete_receipt key digest generation status response now rows) [
      | none ↦ (false, abandon key digest generation false rows)
      | some after ↦ (true, after)
    ]

unfoldable pub answer_stored : ℕ → Stored → Response BroadcastData
answer_stored status (stored_data d) = data_of status d
answer_stored status (stored_error code retryable) = fail_with status code retryable

-- the end of the request: the answer is kept and written, or the claim is abandoned
unfoldable pub finish :
    Libraries
    → String
    → String
    → ℕ
    → Surroundings
    → Verdict
    → List Receipt
    → Response BroadcastData × List Receipt
finish lib key digest generation around (abandoned e) rows =
    (error_of e, abandon key digest generation around.lost rows)
finish lib key digest generation around (completed status s) rows =
    let done =
      complete key digest generation status (lib.marshal s) around.lost around.ended_at rows in
    (if done.0 then answer_stored status s else fail_with 500 "internal" false, done.1)

-- `ClaimReplay`
unfoldable pub replay_stored : Libraries → Receipt → Response BroadcastData
replay_stored lib r = elim (lib.unmarshal r.response_json) [
  | none ↦ fail_with 500 "internal" false
  | some (stored_error code retryable) ↦ fail_with r.http_status code retryable
  | some (stored_data d) ↦ data_of 200 (record d { accepted = false; already_known = true })
]

-- `scopedIdempotencyKey`
unfoldable pub scoped_idempotency_key : Libraries → String → String → String
scoped_idempotency_key lib principal_name key =
    append "v1:" (lib.hash ("v1" ∷ principal_name ∷ key ∷ []))

unfoldable pub payload_digest_of : Libraries → BroadcastRequest → String
payload_digest_of lib req = lib.hash (req.wallet_id ∷ req.raw_tx_hex ∷ req.expected_txid ∷ [])

-- what is tested before the claim; `known` is the registry's answer
unfoldable pub valid_broadcast :
    BroadcastConfig
    → Principal
    → (String → Bool)
    → String
    → Body BroadcastRequest
    → Response BroadcastRequest
valid_broadcast cfg p known key body =
    if not (is_idempotency_key key)
    then fail_with 400 "invalid_request" false
    else elim (decode_json cfg.broadcast_body_bytes body) [
      | error_of e ↦ error_of e
      | data_of status req ↦
          if not (is_wallet_id req.wallet_id)
          then fail_with 400 "invalid_request" false
          else if not (has_wallet p req.wallet_id)
          then fail_with 403 "forbidden" false
          else if not (known req.wallet_id)
          then fail_with 404 "not_found" false
          else if not (is_raw_tx_hex req.raw_tx_hex)
          then fail_with 400 "invalid_request" false
          else if not (is_txid req.expected_txid)
          then fail_with 400 "invalid_request" false
          else data_of 200 req
    ]

-- What a request does: its calls of the node, its answer and the receipts after it.
pub record Handled : Type 0 where
  pub calls : List NodeCall
  pub response : Response BroadcastData
  pub receipts : List Receipt

-- an acquired claim
unfoldable pub resolve :
    Libraries → String → BroadcastRequest → ℕ → Surroundings → NodeReplies → List Receipt → Handled
resolve lib key req generation around node rows =
    let asked = ask_node req node in
    let ended =
      finish lib key (payload_digest_of lib req) generation around asked.1
        (around.meanwhile rows) in
    record { calls = asked.0; response = ended.0; receipts = ended.1 }

unfoldable pub by_claim_state :
    Libraries
    → String
    → BroadcastRequest
    → Surroundings
    → NodeReplies
    → (Claim × Receipt) × List Receipt
    → Handled
by_claim_state lib key req around node claimed = elim claimed.0.0 [
  | conflict ↦ record {
    calls = [];
    response = fail_with 409 "idempotency_conflict" false;
    receipts = claimed.1;
  }
  | in_progress ↦ record {
    calls = [];
    response = fail_with 409 "idempotency_in_progress" true;
    receipts = claimed.1;
  }
  | replay ↦ record { calls = []; response = replay_stored lib claimed.0.1; receipts = claimed.1 }
  | acquired ↦ resolve lib key req claimed.0.1.generation around node claimed.1
]

-- a request that passed the tests
unfoldable pub claim_and_resolve :
    Libraries
    → BroadcastConfig
    → Principal
    → String
    → BroadcastRequest
    → Surroundings
    → NodeReplies
    → List Receipt
    → Handled
claim_and_resolve lib cfg p key req around node rows =
    let scoped = scoped_idempotency_key lib p.name key in
    by_claim_state lib scoped req around node (
      claim_receipt scoped (payload_digest_of lib req) req.expected_txid around.claimed_at
        cfg.idempotency_lease rows)

-- `handleBroadcast`; `header` is the `Idempotency-Key` header
unfoldable pub handle_broadcast :
    Libraries
    → BroadcastConfig
    → Principal
    → (String → Bool)
    → String
    → Body BroadcastRequest
    → Surroundings
    → NodeReplies
    → List Receipt
    → Handled
handle_broadcast lib cfg p known header body around node rows =
    elim (valid_broadcast cfg p known (trim_space header) body) [
      | error_of e ↦ record { calls = []; response = error_of e; receipts = rows }
      | data_of status req ↦ claim_and_resolve lib cfg p (trim_space header) req around node rows
    ]
