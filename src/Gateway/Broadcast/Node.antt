-- ===== src/Gateway/Broadcast/Node.antt =====
-- The calls of the node that one request makes.
use juno_exchange_gateway.Domain.Network.{Transaction}
use juno_exchange_gateway.Gateway.Broadcast.Allowed.{IsAllowed, MayClaim}
use juno_exchange_gateway.Gateway.Broadcast.Handler.{
  Libraries, Surroundings, BroadcastConfig, payload_digest_of, scoped_idempotency_key,
}
use juno_exchange_gateway.Gateway.Broadcast.{
  replied, broadcast, transaction, BroadcastRequest, NodeCall, NodeReplies, decode_raw_transaction,
  ready_node,
}
use juno_exchange_gateway.Gateway.Auth.{Principal}
use juno_exchange_gateway.Gateway.Requests.{Body}
use juno_exchange_gateway.Receipts.{Receipt, acquired, Claim, conflict, in_progress, replay}
use juno_exchange_gateway.Prelude.{
  Bool, List, String, [], suc, trim_space, true, ℕ, ◌∷◌, ◌≡◌, inl, inr, refl, ◌⊎◌, some, ◌≢◌,
}

-- how often a transaction is handed over
unfoldable pub broadcasts : List NodeCall → ℕ
broadcasts [] = 0
broadcasts (broadcast raw ∷ calls) = suc (broadcasts calls)
broadcasts (ready_node ∷ calls) = broadcasts calls
broadcasts (decode_raw_transaction raw ∷ calls) = broadcasts calls
broadcasts (transaction txid ∷ calls) = broadcasts calls

-- Why the node was given a transaction.
pub record HandedOver (lib : Libraries) (cfg : BroadcastConfig) (p : Principal)
    (known : String → Bool) (header : String) (body : Body BroadcastRequest) (around : Surroundings)
    (node : NodeReplies) (rows : List Receipt) : Type 0 where
  pub request : BroadcastRequest
  pub allowed : IsAllowed cfg p known (trim_space header) body request
  pub claimed :
      MayClaim
        (scoped_idempotency_key lib p.name (trim_space header))
        (payload_digest_of lib request)
        around.claimed_at
        cfg.idempotency_lease
        rows
  pub ready_eq : node.ready ≡ true
  pub decoded_eq : node.decoded request.raw_tx_hex ≡ replied request.expected_txid
  pub not_seen :
      (tx : Transaction)
      → node.looked_up request.expected_txid ≡ replied (some tx)
      → (tx.state ≢ "mempool") × (tx.state ≢ "confirmed")

-- whether the claim is acquired
pub Claim-cases :
    (c : Claim) → (c ≡ acquired) ⊎ ((c ≡ conflict) ⊎ ((c ≡ in_progress) ⊎ (c ≡ replay)))
Claim-cases acquired = inl refl
Claim-cases conflict = inr (inl refl)
Claim-cases in_progress = inr (inr (inl refl))
Claim-cases replay = inr (inr (inr refl))
