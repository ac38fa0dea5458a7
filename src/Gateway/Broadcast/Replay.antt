-- ===== src/Gateway/Broadcast/Replay.antt =====
-- A broadcast that was answered, and the same request again.
use juno_exchange_gateway.Receipts.Steps.{Steps, receipt-Remains}
use juno_exchange_gateway.Gateway.Auth.{Principal}
use juno_exchange_gateway.Gateway.Requests.{Body}
use juno_exchange_gateway.Gateway.Response.{data_of}
use juno_exchange_gateway.Gateway.Broadcast.{
  completed, abandoned, Verdict, BroadcastData, BroadcastRequest, NodeReplies, ask_node,
  stored_error, stored_data,
}
use juno_exchange_gateway.Gateway.Broadcast.Handler.{
  complete, finish, Surroundings, Libraries, resolve, BroadcastConfig, answer_stored,
  by_claim_state, claim_and_resolve, handle_broadcast, payload_digest_of, replay_stored,
  scoped_idempotency_key, valid_broadcast,
}
use mathlib.Core.Path.{subst}
use juno_exchange_gateway.Receipts.Fencing.{find_receipt-set_self, find_receipt-key}
use juno_exchange_gateway.Receipts.{
  Receipt, claim_receipt, acquired, claim_existing, complete_receipt, find_receipt, is_owned,
  set_receipt, update_owned,
}
use juno_exchange_gateway.Prelude.{
  Bool, Bool-cases, List, Option-cases, String, [], ap, arith, false, inl, inr, refl, some,
  str_eq_iff, sym, trim_space, true, ℕ, ◌∙◌, ◌≡◌,
}

-- The receipt of an answered request.
record Kept (lib : Libraries) (key digest : String) (d : BroadcastData) (rows : List Receipt)
    : Type 0 where
  row : Receipt
  found : find_receipt key rows ≡ some row
  row_complete : row.complete ≡ true
  row_digest : row.payload_digest ≡ digest
  row_json : row.response_json ≡ lib.marshal (stored_data d)

complete_receipt-Kept :
    (lib : Libraries) (key digest : String) (generation status : ℕ) (d : BroadcastData) (now : ℕ)
    (rows after : List Receipt)
    → complete_receipt key digest generation status (lib.marshal (stored_data d)) now rows
      ≡ some after
    → Kept lib key digest d after
unfolding complete_receipt update_owned is_owned
complete_receipt-Kept lib key digest generation status d now rows after h =
    elim (Option-cases (find_receipt key rows)) [
      | inl n ↦ absurd (ground (arith, h, n))
      | inr (s, e) ↦
          let new : Receipt = record s {
            complete = true;
            http_status = status;
            response_json = lib.marshal (stored_data d);
            updated_at = now;
          } in
          let k = find_receipt-key key rows s e in
          let set : set_receipt key new rows ≡ after = ground (arith, h, e) in
          let same = find_receipt-set_self key new s rows k e in
          record {
            row = new;
            found = ap (λ x. find_receipt key x) (sym set) ∙ same;
            row_complete = refl;
            row_digest = (str_eq_iff s.payload_digest digest).0 (ground (arith, h, e));
            row_json = refl;
          }
    ]

finish-Kept :
    (lib : Libraries) (key digest : String) (generation : ℕ) (around : Surroundings) (v : Verdict)
    (rows : List Receipt) (status : ℕ) (d : BroadcastData)
    → (finish lib key digest generation around v rows).0 ≡ data_of status d
    → Kept lib key digest d (finish lib key digest generation around v rows).1
unfolding finish complete answer_stored
finish-Kept lib key digest generation around (abandoned err) rows status d h = absurd (cc h)
finish-Kept lib key digest generation around (completed n (stored_error c r)) rows status d h =
    absurd (ground (arith, h))
finish-Kept lib key digest generation around (completed n (stored_data c)) rows status d h =
    elim (Bool-cases around.lost) [
      | inl l ↦ absurd (ground (arith, h, l))
      | inr l ↦
          elim (Option-cases (
            complete_receipt key digest generation n (lib.marshal (stored_data c)) around.ended_at
              rows)) [
                | inl e ↦ absurd (ground (arith, h, l, e))
                | inr (after, e) ↦
                    let i : c ≡ d = ground (arith, h, l, e) in
                    let k =
                      complete_receipt-Kept lib key digest generation n c around.ended_at rows after
                        e in
                    rw (l, complete, e) (subst (λ x. Kept lib key digest x after) i k)
              ]
    ]

-- A complete receipt is replayed.
replayed :
    (lib : Libraries) (cfg : BroadcastConfig) (p : Principal) (known : String → Bool)
    (header : String) (body : Body BroadcastRequest) (around : Surroundings) (node : NodeReplies)
    (rows : List Receipt) (status : ℕ) (req : BroadcastRequest) (d : BroadcastData)
    → lib.unmarshal (lib.marshal (stored_data d)) ≡ some (stored_data d)
    → valid_broadcast cfg p known (trim_space header) body ≡ data_of status req
    → Kept lib
        (scoped_idempotency_key lib p.name (trim_space header))
        (payload_digest_of lib req)
        d
        rows
    → handle_broadcast lib cfg p known header body around node rows ≡ record {
      calls = [];
      response = data_of 200 (record d { accepted = false; already_known = true });
      receipts = rows;
    }
unfolding handle_broadcast claim_and_resolve by_claim_state claim_receipt claim_existing
    replay_stored
replayed lib cfg p known header body around node rows status req d hl v k =
    let same = (str_eq_iff k.row.payload_digest (payload_digest_of lib req)).1 k.row_digest in
    let json : lib.unmarshal k.row.response_json ≡ some (stored_data d) =
      ap lib.unmarshal k.row_json ∙ hl in
    ground (arith, v, k.found, k.row_complete, same, json)

handle_broadcast-acquired :
    (lib : Libraries) (cfg : BroadcastConfig) (p : Principal) (known : String → Bool)
    (header : String) (body : Body BroadcastRequest) (around : Surroundings) (node : NodeReplies)
    (rows : List Receipt) (status : ℕ) (req : BroadcastRequest) (mine : Receipt)
    → valid_broadcast cfg p known (trim_space header) body ≡ data_of status req
    → (claim_receipt
        (scoped_idempotency_key lib p.name (trim_space header))
        (payload_digest_of lib req)
        req.expected_txid
        around.claimed_at
        cfg.idempotency_lease
        rows).0
      ≡ (acquired, mine)
    → handle_broadcast lib cfg p known header body around node rows
      ≡ resolve lib
          (scoped_idempotency_key lib p.name (trim_space header))
          req
          mine.generation
          around
          node
          (claim_receipt
            (scoped_idempotency_key lib p.name (trim_space header))
            (payload_digest_of lib req)
            req.expected_txid
            around.claimed_at
            cfg.idempotency_lease
            rows).1
unfolding handle_broadcast claim_and_resolve by_claim_state
handle_broadcast-acquired lib cfg p known header body around node rows status req mine v c =
    ground (arith, v, c)

-- JSON reads back what it wrote of the answer. When a request that acquired its claim was
-- answered with data, then the same request of the same caller with the same key, later and after
-- whatever receipt operations, makes no call of the node, changes no receipt, and is answered with
-- the same data, as not accepted now and already known.
pub handle_broadcast-replay :
    (lib : Libraries) (cfg : BroadcastConfig) (p : Principal) (known known' : String → Bool)
    (header : String) (body body' : Body BroadcastRequest) (around around' : Surroundings)
    (node node' : NodeReplies) (rows later : List Receipt) (n n' status : ℕ)
    (req : BroadcastRequest) (mine : Receipt) (d : BroadcastData)
    → lib.unmarshal (lib.marshal (stored_data d)) ≡ some (stored_data d)
    → valid_broadcast cfg p known (trim_space header) body ≡ data_of n req
    → (claim_receipt
        (scoped_idempotency_key lib p.name (trim_space header))
        (payload_digest_of lib req)
        req.expected_txid
        around.claimed_at
        cfg.idempotency_lease
        rows).0
      ≡ (acquired, mine)
    → (handle_broadcast lib cfg p known header body around node rows).response ≡ data_of status d
    → Steps (handle_broadcast lib cfg p known header body around node rows).receipts later
    → valid_broadcast cfg p known' (trim_space header) body' ≡ data_of n' req
    → handle_broadcast lib cfg p known' header body' around' node' later ≡ record {
      calls = [];
      response = data_of 200 (record d { accepted = false; already_known = true });
      receipts = later;
    }
unfolding resolve
handle_broadcast-replay lib cfg p known known' header body body' around around' node node' rows
      later n n' status req mine d hl v c h s v' =
    let key = scoped_idempotency_key lib p.name (trim_space header) in
    let digest = payload_digest_of lib req in
    let claimed =
      claim_receipt key digest req.expected_txid around.claimed_at cfg.idempotency_lease rows in
    let ended =
      finish lib key digest mine.generation around (ask_node req node).1
        (around.meanwhile claimed.1) in
    let same =
      handle_broadcast-acquired lib cfg p known header body around node rows n req mine v c in
    let k : Kept lib key digest d ended.1 =
      finish-Kept lib key digest mine.generation around (ask_node req node).1
        (around.meanwhile claimed.1) status d (ap (λ x. x.response) (sym same) ∙ h) in
    let m =
      receipt-Remains key k.row k.found
        (subst (λ x. Steps x later) (ap (λ x. x.receipts) same) s) in
    let i : m.row ≡ k.row = m.later.complete_kept k.row_complete in
    let k' : Kept lib key digest d later = record {
      row = k.row;
      found = m.found ∙ ap some i;
      row_complete = k.row_complete;
      row_digest = k.row_digest;
      row_json = k.row_json;
    } in
    replayed lib cfg p known' header body' around' node' later n' req d hl v' k'
