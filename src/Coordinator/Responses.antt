-- ===== src/Coordinator/Responses.antt =====
-- internal/coordinator/service.go: `Attempt`, `Cancel` and `attemptForResponse`, what a caller is
-- shown of an attempt and when it may cancel it. An error is its code.
pub mod Withheld
use juno_exchange_gateway.Prelude.{
  ℕ, Bool, true, false, ◌||◌, ◌&&◌, not, Option, none, some, List, String, str_eq, ltb, ◌==◌,
  length, all, if◌then◌else◌, is_empty,
}
use juno_exchange_gateway.State.{
  State, signed, broadcast, orphaned, expired_pending_reconciliation, released,
}
use juno_exchange_gateway.Domain.Network.{NodeTip}
use juno_exchange_gateway.Db.{
  Attempt, Db, Outcome, ok, err, StoreError, state_conflict, find_attempt,
}
use juno_exchange_gateway.Attempts.Mark.{cancel_attempt}
use juno_exchange_gateway.Coordinator.Request.{Config}
use juno_exchange_gateway.Coordinator.Reconcile.{tip_ok, expiry_valid}

-- `Attempt` of types.go; its texts of times are made from the two times
pub record View : Type 0 where
  pub attempt_id : String
  pub state : State
  pub wallet_id : String
  pub approval_reference : String
  pub change_address : String
  pub plan_digest : String
  pub fee_zat : String
  pub expiry_height : ℕ
  pub selected_note_ids : List String
  pub txid : String
  pub raw_tx_hex : String
  pub orchard_output_action_indices : List ℕ
  pub orchard_change_action_index : Option ℕ
  pub error : Option (String × String × Bool)
  pub created_at : ℕ
  pub updated_at : ℕ

pub data Response : Type 0 where
  shown : View → Response
  error_of : String → Response

-- the transaction of an attempt in the state, blank once it is of no use
shown_raw : State → String → String
shown_raw expired_pending_reconciliation raw = ""
shown_raw released raw = ""
shown_raw s raw = raw

-- `attemptView`
unfoldable pub attempt_view : Attempt → View
unfolding shown_raw
attempt_view a = record {
  attempt_id = a.attempt_id;
  state = a.state;
  wallet_id = a.wallet_id;
  approval_reference = a.approval_reference;
  change_address = a.change_address;
  plan_digest = a.plan_digest;
  fee_zat = a.fee_zat;
  expiry_height = a.expiry_height;
  selected_note_ids = a.selected_note_ids;
  txid = a.txid;
  raw_tx_hex = shown_raw a.state a.raw_tx_hex;
  orchard_output_action_indices = a.orchard_output_action_indices;
  orchard_change_action_index = a.orchard_change_action_index;
  error =
      if is_empty a.error_code
      then none
      else some (a.error_code, a.error_message, a.error_retryable);
  created_at = a.created_at;
  updated_at = a.updated_at;
}

-- `expirySensitiveResponseState`
unfoldable pub expiry_sensitive : State → Bool
expiry_sensitive signed = true
expiry_sensitive broadcast = true
expiry_sensitive orphaned = true
expiry_sensitive s = false

-- `attemptForResponse`; `tip` is the answer of the node, `none` if the call failed
unfoldable pub attempt_for_response : Config → Option NodeTip → Attempt → Response
attempt_for_response cfg tip a =
    if not (expiry_sensitive a.state)
    then shown (attempt_view a)
    else if not (expiry_valid a)
    then error_of "internal"
    else elim tip [
      | none ↦ error_of "expiry_status_unavailable"
      | some t ↦
          if not (tip_ok cfg t)
          then error_of "expiry_status_unavailable"
          else if ltb a.expiry_height t.height
          then shown
              (record (attempt_view a) { state = expired_pending_reconciliation; raw_tx_hex = "" })
          else shown (attempt_view a)
    ]

-- `id_ok` is `attemptIDRE.MatchString`
module _ (id_ok : String → Bool) where
  -- `Attempt`
  unfoldable pub show_attempt : Config → Option NodeTip → String → String → Db → Response
  show_attempt cfg tip principal id db =
      if not (id_ok id) then error_of "invalid_request" else elim (find_attempt id db.attempts) [
        | none ↦ error_of "not_found"
        | some a ↦
            if str_eq a.principal_name principal
            then attempt_for_response cfg tip a
            else error_of "forbidden"
      ]

  cancel_owned : String → ℕ → Db → Response × Db
  cancel_owned id now db = elim (cancel_attempt id now db).0 [
    | ok a ↦ (shown (attempt_view a), (cancel_attempt id now db).1)
    | err e ↦ elim e [
      | state_conflict ↦ (error_of "attempt_not_cancellable", (cancel_attempt id now db).1)
      | _ ↦ (error_of "internal", (cancel_attempt id now db).1)
    ]
  ]

  -- `Cancel`; `before` is what others leave of the store between its two calls
  unfoldable pub cancel : (Db → Db) → String → String → ℕ → Db → Response × Db
  unfolding cancel_owned
  cancel before principal id now db =
      if not (id_ok id)
      then (error_of "invalid_request", db)
      else elim (find_attempt id db.attempts) [
        | none ↦ (error_of "not_found", db)
        | some a ↦
            if str_eq a.principal_name principal
            then cancel_owned id now (before db)
            else (error_of "forbidden", db)
      ]
