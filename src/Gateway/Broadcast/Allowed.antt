-- ===== src/Gateway/Broadcast/Allowed.antt =====
-- What the tests and the claim before a broadcast establish.
use juno_exchange_gateway.Gateway.Response.{Response-cases, data_of}
use juno_exchange_gateway.Receipts.{Receipt, claim_existing, claim_receipt, find_receipt, acquired}
use juno_exchange_gateway.Gateway.Broadcast.Handler.{BroadcastConfig, valid_broadcast}
use juno_exchange_gateway.Gateway.Broadcast.{BroadcastRequest}
use juno_exchange_gateway.Gateway.Auth.{Principal, has_wallet}
use juno_exchange_gateway.Domain.Hex.{is_lower_hex, is_lower_hex64, codes}
use juno_exchange_gateway.Gateway.Requests.{
  document, exceeds, decode_json, Body, equal_fold, is_idempotency_key, is_raw_tx_hex, is_txid,
  is_wallet_id, malformed, oversized, Document,
}
use juno_exchange_gateway.Prelude.{
  ◌≡◌, String, Bool, List, Option-cases, all, arith, false, inl, inr, length, mem, none, some,
  str_eq_iff, true, ℕ, ◌%◌, ◌+◌, ◌||◌, ◌≤◌, ap, is_empty, refl, str_eq, ◌∙◌, ◌⊎◌,
}

-- The request is the whole document of a JSON body within the limit; its identifiers have their
-- documented forms, and its wallet is a registered one that the caller may use.
pub record IsAllowed (cfg : BroadcastConfig) (p : Principal) (known : String → Bool) (key : String)
    (body : Body BroadcastRequest) (req : BroadcastRequest) : Type 0 where
  pub media : String
  pub media_eq : body.media_type ≡ some media
  pub json : equal_fold media "application/json" ≡ true
  pub content_eq : body.content ≡ document req false
  pub within : (n : ℕ) → body.content_length ≡ some n → n ≤ cfg.broadcast_body_bytes
  pub key_form : is_idempotency_key key ≡ true
  pub wallet_form : is_wallet_id req.wallet_id ≡ true
  pub wallet_held : (p.all_access || mem "*" p.wallets || mem req.wallet_id p.wallets) ≡ true
  pub registered : known req.wallet_id ≡ true
  pub raw_given : 1 ≤ length (codes req.raw_tx_hex)
  pub raw_bytes : length (codes req.raw_tx_hex) % 2 ≡ 0
  pub raw_hex : all is_lower_hex (codes req.raw_tx_hex) ≡ true
  pub txid_length : length (codes req.expected_txid) ≡ 64
  pub txid_hex : all is_lower_hex (codes req.expected_txid) ≡ true

-- The key has no receipt, or one for this payload that was not completed and whose lease is over.
pub data MayClaim (key digest : String) (now lease : ℕ) (rows : List Receipt) : Type 0 where
  first_claim : find_receipt key rows ≡ none → MayClaim key digest now lease rows
  taken_over :
      (r : Receipt)
      → find_receipt key rows ≡ some r
      → r.payload_digest ≡ digest
      → r.complete ≡ false
      → r.updated_at + lease ≤ now
      → MayClaim key digest now lease rows

pub claim_receipt_sound :
    (key digest txid : String) (now lease : ℕ) (rows : List Receipt)
    → (claim_receipt key digest txid now lease rows).0.0 ≡ acquired
    → MayClaim key digest now lease rows
unfolding claim_receipt claim_existing
claim_receipt_sound key digest txid now lease rows h = elim (Option-cases (find_receipt key rows)) [
  | inl e ↦ first_claim e
  | inr (r, e) ↦
      taken_over r e ((str_eq_iff r.payload_digest digest).0 (ground (arith, h, e)))
        (ground (arith, h, e)) (ground (arith, h, e))
]

Document-cases :
    (d : Document BroadcastRequest)
    → ((r : BroadcastRequest) × (d ≡ document r false))
      ⊎ (((r : BroadcastRequest) × (d ≡ document r true)) ⊎ ((d ≡ malformed) ⊎ (d ≡ oversized)))
Document-cases (document r false) = inl (r, refl)
Document-cases (document r true) = inr (inl (r, refl))
Document-cases malformed = inr (inr (inl refl))
Document-cases oversized = inr (inr (inr refl))

decode_json_sound :
    (limit : ℕ) (b : Body BroadcastRequest) (status : ℕ) (req : BroadcastRequest)
    → decode_json limit b ≡ data_of status req
    → (media : String) × (b.media_type ≡ some media)
      × (equal_fold media "application/json" ≡ true)
      × (b.content ≡ document req false)
      × ((n : ℕ) → b.content_length ≡ some n → n ≤ limit)
unfolding decode_json exceeds
decode_json_sound limit b status req h = elim (Option-cases b.media_type) [
  | inl e ↦ absurd (ground (arith, h, e))
  | inr (media, e) ↦ elim (Document-cases b.content) [
    | inl (r, d) ↦
        let i : r ≡ req = ground (arith, h, e, d) in
        (
          media,
          e,
          ground (arith, h, e),
          d ∙ ap (λ x. document x false) i,
          λ n x. ground (arith, h, e, x),
        )
    | inr d ↦ absurd (ground (arith, h, e, d))
  ]
]

codes-given : (s : String) → is_empty s ≡ false → 1 ≤ length (codes s)
unfolding str_eq
codes-given String.[] h = absurd (cc h)
codes-given (String.◌∷◌ c s) h = omega arith

is_raw_tx_hex_sound :
    (s : String)
    → is_raw_tx_hex s ≡ true
    → (1 ≤ length (codes s)) × (length (codes s) % 2 ≡ 0) × (all is_lower_hex (codes s) ≡ true)
unfolding is_raw_tx_hex
is_raw_tx_hex_sound s h = (codes-given s (ground (arith, h)), ground (arith, h), ground (arith, h))

is_txid_sound :
    (s : String) → is_txid s ≡ true → (length (codes s) ≡ 64) × (all is_lower_hex (codes s) ≡ true)
unfolding is_txid is_lower_hex64
is_txid_sound s h = ground (arith, h)

pub valid_broadcast_sound :
    (cfg : BroadcastConfig) (p : Principal) (known : String → Bool) (key : String)
    (body : Body BroadcastRequest) (status : ℕ) (req : BroadcastRequest)
    → valid_broadcast cfg p known key body ≡ data_of status req
    → IsAllowed cfg p known key body req
unfolding valid_broadcast has_wallet
valid_broadcast_sound cfg p known key body status req h =
    elim (Response-cases (decode_json cfg.broadcast_body_bytes body)) [
      | inr (err, e) ↦ absurd (ground (arith, h, e))
      | inl (n, r, e) ↦
          let i : r ≡ req = ground (arith, h, e) in
          let d = decode_json_sound cfg.broadcast_body_bytes body n req (rw i at e) in
          let raw = is_raw_tx_hex_sound req.raw_tx_hex (ground (arith, h, e)) in
          let txid = is_txid_sound req.expected_txid (ground (arith, h, e)) in
          record {
            media = d.0;
            media_eq = d.1;
            json = d.2;
            content_eq = d.3;
            within = d.4;
            key_form = ground (arith, h);
            wallet_form = ground (arith, h, e);
            wallet_held = ground (arith, h, e);
            registered = ground (arith, h, e);
            raw_given = raw.0;
            raw_bytes = raw.1;
            raw_hex = raw.2;
            txid_length = txid.0;
            txid_hex = txid.1;
          }
    ]
