-- ===== src/Gateway/Broadcast/Settled.antt =====
-- What a request leaves behind in the receipts.
use juno_exchange_gateway.Gateway.Broadcast.Node.{Claim-cases}
use juno_exchange_gateway.Receipts.Steps.{
  Steps, start, then_step, by_complete, by_claim, by_abandon,
}
use juno_exchange_gateway.Gateway.Auth.{Principal}
use juno_exchange_gateway.Gateway.Requests.{Body}
use juno_exchange_gateway.Gateway.Response.{data_of, Response-cases}
use juno_exchange_gateway.Gateway.Broadcast.{
  completed, abandoned, Verdict, BroadcastRequest, NodeReplies, ask_node,
}
use juno_exchange_gateway.Gateway.Broadcast.Handler.{
  complete, abandon, finish, Surroundings, Libraries, resolve, BroadcastConfig, by_claim_state,
  claim_and_resolve, handle_broadcast, payload_digest_of, scoped_idempotency_key, valid_broadcast,
}
use mathlib.Core.Path.{subst}
use juno_exchange_gateway.Receipts.Fencing.{find_receipt-set_self, find_receipt-key}
use juno_exchange_gateway.Receipts.{
  Receipt, claim_receipt, acquired, abandon_receipt, complete_receipt, find_receipt, is_owned,
  set_receipt, update_owned,
}
use juno_exchange_gateway.Prelude.{
  Bool, Bool-cases, List, Option-cases, String, arith, false, inl, inr, none, refl, some,
  trim_space, true, ℕ, ◌∙◌, ◌≡◌,
}

-- An update of a claim that ends it leaves no row that the claim owns.
update_owned-unowned :
    (key digest : String) (generation : ℕ) (f : Receipt → Receipt) (rows after : List Receipt)
    (r : Receipt)
    → ((s : Receipt) → (f s).key ≡ s.key)
    → ((s : Receipt)
        → is_owned key digest generation s ≡ true
        → is_owned key digest generation (f s) ≡ false)
    → update_owned key digest generation f rows ≡ some after
    → find_receipt key after ≡ some r
    → is_owned key digest generation r ≡ false
unfolding update_owned
update_owned-unowned key digest generation f rows after r hk hf h found =
    elim (Option-cases (find_receipt key rows)) [
      | inl n ↦ absurd (ground (arith, h, n))
      | inr (s, e) ↦ elim (Bool-cases (is_owned key digest generation s)) [
        | inr o ↦ absurd (ground (arith, h, e, o))
        | inl o ↦
            let a : set_receipt key (f s) rows ≡ after = ground (arith, h, e, o) in
            let same =
              find_receipt-set_self key (f s) s rows (hk s ∙ find_receipt-key key rows s e) e in
            let i : f s ≡ r = cc (same, a, found) in
            subst (λ x. is_owned key digest generation x ≡ false) i (hf s o)
      ]
    ]

update_owned-none :
    (key digest : String) (generation : ℕ) (f : Receipt → Receipt) (rows : List Receipt)
    (r : Receipt)
    → update_owned key digest generation f rows ≡ none
    → find_receipt key rows ≡ some r
    → is_owned key digest generation r ≡ false
unfolding update_owned
update_owned-none key digest generation f rows r h found = ground (arith, h, found)

abandon-unowned :
    (key digest : String) (generation : ℕ) (rows : List Receipt) (r : Receipt)
    → find_receipt key (abandon key digest generation false rows) ≡ some r
    → is_owned key digest generation r ≡ false
unfolding abandon abandon_receipt is_owned
abandon-unowned key digest generation rows r found =
    elim (Option-cases (abandon_receipt key digest generation rows)) [
      | inl n ↦ update_owned-none key digest generation _ rows r n (ground (arith, found, n))
      | inr (after, e) ↦
          update_owned-unowned key digest generation _ rows after r (λ s. refl)
            (λ s o. ground (arith, o)) e (ground (arith, found, e))
    ]

complete-unowned :
    (key digest : String) (generation status : ℕ) (response : String) (now : ℕ)
    (rows : List Receipt) (r : Receipt)
    → find_receipt key (complete key digest generation status response false now rows).1 ≡ some r
    → is_owned key digest generation r ≡ false
unfolding complete complete_receipt is_owned
complete-unowned key digest generation status response now rows r found =
    elim (Option-cases (complete_receipt key digest generation status response now rows)) [
      | inl n ↦ abandon-unowned key digest generation rows r (ground (arith, found, n))
      | inr (after, e) ↦
          update_owned-unowned key digest generation _ rows after r (λ s. refl)
            (λ s o. ground (arith, o)) e (ground (arith, found, e))
    ]

finish-unowned :
    (lib : Libraries) (key digest : String) (generation : ℕ) (around : Surroundings) (v : Verdict)
    (rows : List Receipt) (r : Receipt)
    → around.lost ≡ false
    → find_receipt key (finish lib key digest generation around v rows).1 ≡ some r
    → is_owned key digest generation r ≡ false
unfolding finish
finish-unowned lib key digest generation around (abandoned e) rows r l found =
    abandon-unowned key digest generation rows r (ground (arith, found, l))
finish-unowned lib key digest generation around (completed status s) rows r l found =
    complete-unowned key digest generation status (lib.marshal s) around.ended_at rows r
      (ground (arith, found, l))

-- When a request has acquired the claim of its key and its heartbeat had no error, then at its
-- end, whatever the node answered and whatever others did to the receipts, the claim is not left in
-- processing: the key's receipt is complete or another claim's.
pub handle_broadcast-unowned :
    (lib : Libraries) (cfg : BroadcastConfig) (p : Principal) (known : String → Bool)
    (header : String) (body : Body BroadcastRequest) (around : Surroundings) (node : NodeReplies)
    (rows : List Receipt) (status : ℕ) (req : BroadcastRequest) (mine r : Receipt)
    → valid_broadcast cfg p known (trim_space header) body ≡ data_of status req
    → (claim_receipt
        (scoped_idempotency_key lib p.name (trim_space header))
        (payload_digest_of lib req)
        req.expected_txid
        around.claimed_at
        cfg.idempotency_lease
        rows).0
      ≡ (acquired, mine)
    → around.lost ≡ false
    → find_receipt
        (scoped_idempotency_key lib p.name (trim_space header))
        (handle_broadcast lib cfg p known header body around node rows).receipts
      ≡ some r
    → is_owned
        (scoped_idempotency_key lib p.name (trim_space header))
        (payload_digest_of lib req)
        mine.generation
        r
      ≡ false
unfolding handle_broadcast claim_and_resolve by_claim_state resolve
handle_broadcast-unowned lib cfg p known header body around node rows status req mine r v c l
      found =
    let claimed =
      claim_receipt (scoped_idempotency_key lib p.name (trim_space header))
        (payload_digest_of lib req) req.expected_txid around.claimed_at cfg.idempotency_lease
        rows in
    finish-unowned lib (scoped_idempotency_key lib p.name (trim_space header))
      (payload_digest_of lib req) mine.generation around (ask_node req node).1
      (around.meanwhile claimed.1) r l (ground (arith, found, v, c))

abandon-Steps :
    (key digest : String) (generation : ℕ) (lost : Bool) (rows after : List Receipt)
    → Steps rows after
    → Steps rows (abandon key digest generation lost after)
unfolding abandon
abandon-Steps key digest generation lost rows after s = elim (Bool-cases lost) [
  | inl l ↦ rw (l, abandon) s
  | inr l ↦ elim (Option-cases (abandon_receipt key digest generation after)) [
    | inl n ↦ rw (l, abandon, n) s
    | inr (more, e) ↦ rw (l, abandon, e) (then_step s (by_abandon key digest generation e))
  ]
]

finish-Steps :
    (lib : Libraries) (key digest : String) (generation : ℕ) (around : Surroundings) (v : Verdict)
    (rows after : List Receipt)
    → Steps rows after
    → Steps rows (finish lib key digest generation around v after).1
unfolding finish complete
finish-Steps lib key digest generation around (abandoned e) rows after s =
    abandon-Steps key digest generation around.lost rows after s
finish-Steps lib key digest generation around (completed status d) rows after s =
    elim (Bool-cases around.lost) [
      | inl l ↦ rw (l, complete) s
      | inr l ↦
          elim (Option-cases
            (complete_receipt key digest generation status (lib.marshal d) around.ended_at after)) [
              | inl n ↦ rw (l, complete, n) (abandon-Steps key digest generation false rows after s)
              | inr (more, e) ↦
                  rw (l, complete, e)
                    (then_step s
                      (by_complete key digest generation status (lib.marshal d) around.ended_at e))
            ]
    ]

-- A request changes the receipts by receipt operations alone, when the others do.
pub handle_broadcast-Steps :
    (lib : Libraries) (cfg : BroadcastConfig) (p : Principal) (known : String → Bool)
    (header : String) (body : Body BroadcastRequest) (around : Surroundings) (node : NodeReplies)
    (rows : List Receipt)
    → ((mid : List Receipt) → Steps rows mid → Steps rows (around.meanwhile mid))
    → Steps rows (handle_broadcast lib cfg p known header body around node rows).receipts
unfolding handle_broadcast claim_and_resolve by_claim_state resolve
handle_broadcast-Steps lib cfg p known header body around node rows h =
    elim (Response-cases (valid_broadcast cfg p known (trim_space header) body)) [
      | inr (err, e) ↦ rw (e, handle_broadcast) start
      | inl (status, req, e) ↦
          let key = scoped_idempotency_key lib p.name (trim_space header) in
          let digest = payload_digest_of lib req in
          let claimed =
            claim_receipt key digest req.expected_txid around.claimed_at cfg.idempotency_lease
              rows in
          let s : Steps rows claimed.1 =
            then_step start
              (by_claim key digest req.expected_txid around.claimed_at cfg.idempotency_lease) in
          elim (Claim-cases claimed.0.0) [
            | inl a ↦
                rw (e, handle_broadcast, a)
                  (finish-Steps lib key digest claimed.0.1.generation around (ask_node req node).1
                    rows (around.meanwhile claimed.1) (h claimed.1 s))
            | inr (inl a) ↦ rw (e, handle_broadcast, a) s
            | inr (inr (inl a)) ↦ rw (e, handle_broadcast, a) s
            | inr (inr (inr a)) ↦ rw (e, handle_broadcast, a) s
          ]
    ]
