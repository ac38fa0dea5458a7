-- ===== src/Gateway/Broadcast.antt =====
-- internal/api/api.go, `handleBroadcast` and `receiptLease`: a signed transaction is handed to the node
-- once for an idempotency key. A node's answers are arguments, one for each call the handler can make;
-- a cancelled context is an unavailable node. Other requests and the heartbeat work on the receipts
-- between the claim and the end of the request: `meanwhile` is what they do, and `lost` says that the
-- heartbeat had an error. SHA-256 and JSON are parameters.
pub mod Handler
pub mod Allowed
pub mod Node
pub mod Settled
pub mod Replay
use juno_exchange_gateway.Domain.Network.{Transaction}
use juno_exchange_gateway.Gateway.Response.{ApiError}
use juno_exchange_gateway.Prelude.{
  Bool, List, Option, String, [], false, if◌then◌else◌, none, not, some, str_eq, true, ℕ, ◌++◌,
  ◌||◌, ◌∷◌,
}

pub record BroadcastRequest : Type 0 where
  pub wallet_id : String
  pub raw_tx_hex : String
  pub expected_txid : String

-- `data` of an answer
pub record BroadcastData : Type 0 where
  pub wallet_id : String
  pub txid : String
  pub state : String
  pub accepted : Bool
  pub already_known : Bool

-- `storedReceipt`; an error's texts and details are not modelled, and so not its status
pub data Stored : Type 0 where
  stored_data : BroadcastData → Stored
  stored_error : String → Bool → Stored

-- domain.UpstreamError's kind, `other` for any error that is none
pub data ErrorKind : Type 0 where
  unavailable invalid_response rejected already_known other : ErrorKind

pub data Reply {ℓ} (A : Type ℓ) : Type ℓ where
  replied : A → Reply A
  failed : ErrorKind → Reply A

-- the node's answers to this request's calls
pub record NodeReplies : Type 0 where
  pub ready : Bool
  pub decoded : String → Reply String
  pub looked_up : String → Reply (Option Transaction)
  pub broadcast : String → Reply String
  pub looked_up_again : String → Reply (Option Transaction)

pub data NodeCall : Type 0 where
  ready_node : NodeCall
  decode_raw_transaction : String → NodeCall
  transaction : String → NodeCall
  broadcast : String → NodeCall

-- what the request comes to: an answer that is kept in the receipt, or one that is not
pub data Verdict : Type 0 where
  completed : ℕ → Stored → Verdict
  abandoned : ApiError → Verdict

unfoldable pub broadcast_already_known : Reply (Option Transaction) → Option Transaction
broadcast_already_known (failed k) = none
broadcast_already_known (replied none) = none
broadcast_already_known (replied (some tx)) =
    if str_eq tx.state "mempool" || str_eq tx.state "confirmed" then some tx else none

abbrev pub api_error : ℕ → String → Bool → ApiError
api_error status code retryable = record { status = status; code = code; retryable = retryable }

unfoldable pub known_data : BroadcastRequest → String → Stored
known_data req state = stored_data (record {
  wallet_id = req.wallet_id;
  txid = req.expected_txid;
  state = state;
  accepted = false;
  already_known = true;
})

is_node_fault : ErrorKind → Bool
is_node_fault unavailable = true
is_node_fault invalid_response = true
is_node_fault k = false

-- after an error of `Broadcast`
unfoldable pub after_failure : BroadcastRequest → NodeReplies → ErrorKind → Verdict
after_failure req node kind =
    elim (broadcast_already_known (node.looked_up_again req.expected_txid)) [
      | some tx ↦ completed 200 (known_data req tx.state)
      | none ↦ elim kind [
        | rejected ↦ completed 422 (stored_error "transaction_rejected" false)
        | already_known ↦ completed 200 (known_data req "known")
        | unavailable ↦ abandoned (api_error 502 "node_rpc_error" true)
        | invalid_response ↦ abandoned (api_error 502 "node_rpc_error" true)
        | other ↦ abandoned (api_error 502 "node_rpc_error" true)
      ]
    ]

-- from the call of `Broadcast`
unfoldable pub hand_over : BroadcastRequest → NodeReplies → List NodeCall × Verdict
hand_over req node = elim (node.broadcast req.raw_tx_hex) [
  | failed kind ↦
      (broadcast req.raw_tx_hex ∷ transaction req.expected_txid ∷ [], after_failure req node kind)
  | replied txid ↦ (
    broadcast req.raw_tx_hex ∷ [],
    if str_eq txid req.expected_txid
        then completed 202 (
            stored_data (record {
              wallet_id = req.wallet_id;
              txid = txid;
              state = "mempool";
              accepted = true;
              already_known = false;
            }))
        else abandoned (api_error 502 "node_rpc_error" true),
  )
]

-- the part of `handleBroadcast` behind the claim: the calls of the node in their order, and the verdict
unfoldable pub ask_node : BroadcastRequest → NodeReplies → List NodeCall × Verdict
unfolding is_node_fault
ask_node req node =
    if not node.ready
    then (ready_node ∷ [], abandoned (api_error 503 "node_not_ready" true))
    else let asked = ready_node ∷ decode_raw_transaction req.raw_tx_hex ∷ [] in
      elim (node.decoded req.raw_tx_hex) [
        | failed kind ↦ (
          asked,
          if is_node_fault kind
              then abandoned (api_error 502 "node_rpc_error" true)
              else abandoned (api_error 400 "invalid_request" false),
        )
        | replied txid ↦
            if not (str_eq txid req.expected_txid)
            then (asked, abandoned (api_error 422 "expected_txid_mismatch" false))
            else let asked_again = asked ++ transaction req.expected_txid ∷ [] in
              elim (broadcast_already_known (node.looked_up req.expected_txid)) [
                | some tx ↦ (asked_again, completed 200 (known_data req tx.state))
                | none ↦ (asked_again ++ (hand_over req node).0, (hand_over req node).1)
              ]
      ]
