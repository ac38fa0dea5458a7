-- ===== src/Coordinator/Reconcile.antt =====
-- internal/coordinator/service.go: `reconcileAttempt` and what it calls. The answers of the node and
-- of the scanner to one call are its arguments; a failed call, a timeout included, is `none`. Nothing
-- that others do to the store comes between the marks of one reconciliation.
pub mod Evidence
pub mod Moves
pub mod Proofs
pub mod Progress
pub mod Reaches
use juno_exchange_gateway.Prelude.{
  ℕ, ◌+◌, ◌-◌, ◌^◌, Bool, true, false, ◌&&◌, ◌||◌, not, Option, none, some, List, [], ◌∷◌, String,
  str_eq, ltb, leb, ◌==◌, if◌then◌else◌,
}
use juno_exchange_gateway.State.{
  State, broadcast, mined, orphaned, expired_pending_reconciliation, released, final, same_state,
}
use juno_exchange_gateway.Domain.Network.{
  Network, network_name, address_hrp, node_chain, NodeTip, ScannerHealth, Transaction,
}
use juno_exchange_gateway.Domain.Notes.{NoteStatus, WalletNoteStatuses, valid_for}
use juno_exchange_gateway.Db.{Attempt, Db}
use juno_exchange_gateway.Attempts.Mark.{Mark, mark_attempt_state}
use juno_exchange_gateway.Coordinator.Request.{Config}

pub record Answers : Type 0 where
  -- `node.Transaction`: the inner `none` is a transaction that is not found
  pub lookup : Option (Option Transaction)
  -- `node.Tip` in `pastExpiry`
  pub expiry_tip : Option NodeTip
  -- the three calls of `scannerProof`
  pub proof_tip : Option NodeTip
  pub health : Option ScannerHealth
  pub statuses : Option (Option WalletNoteStatuses)

unfoldable pub tip_ok : Config → NodeTip → Bool
tip_ok cfg tip = str_eq tip.network (node_chain cfg.network) && not tip.initial_block_download

abbrev pub max_uint32 : ℕ
max_uint32 = 2 ^ 32 - 1

unfoldable pub expiry_valid : Attempt → Bool
expiry_valid a = not (a.expiry_height == 0) && leb a.expiry_height max_uint32

unfoldable pub past_expiry : Config → Attempt → Option NodeTip → Bool
past_expiry cfg a tip = elim tip [
  | none ↦ false
  | some t ↦ expiry_valid a && tip_ok cfg t && ltb a.expiry_height t.height
]

abbrev is_true : Option Bool → Bool
is_true none = false
is_true (some b) = b

abbrev is_number : ℕ → Option ℕ → Bool
is_number n none = false
is_number n (some m) = m == n

unfoldable pub health_ok : Config → NodeTip → ScannerHealth → Bool
health_ok cfg tip h =
    str_eq h.status "ok"
    && str_eq h.network (network_name cfg.network)
    && str_eq h.ua_hrp (address_hrp cfg.network)
    && is_true h.ready
    && is_number cfg.default_confirmations h.confirmations
    && is_true h.history_complete
    && is_true h.pending_spends_ready
    && is_number tip.height h.scanned_height
    && str_eq h.scanned_hash tip.hash

unfoldable pub statuses_ok : Attempt → NodeTip → WalletNoteStatuses → Bool
statuses_ok a tip s =
    valid_for a.wallet_id a.selected_note_ids s
    && (s.as_of_scanner_height == tip.height)
    && str_eq s.as_of_scanner_hash tip.hash

unfoldable pub scanner_proof : Config → Attempt → Answers → Option (NodeTip × WalletNoteStatuses)
scanner_proof cfg a w = elim w.proof_tip [
  | none ↦ none
  | some tip ↦ elim w.health [
    | none ↦ none
    | some h ↦ elim w.statuses [
      | none ↦ none
      | some found ↦ elim found [
        | none ↦ none
        | some s ↦
            if tip_ok cfg tip && health_ok cfg tip h && statuses_ok a tip s
            then some (tip, s)
            else none
      ]
    ]
  ]
]

-- `transition`
unfoldable pub transition : Attempt → State → Bool → ℕ → Db → Db
transition a state release now db =
    if same_state a.state state
    then db
    else (mark_attempt_state a.attempt_id
        (record {
          state = some state;
          code = "";
          message = "";
          retryable = false;
          release = release;
        })
        now db).1

is_spent_by : String → NoteStatus → Bool
is_spent_by txid s =
    str_eq s.state "spent"
    && elim s.spent_txid [ none ↦ false | some t ↦ str_eq t txid ]
    && elim s.spent_height [ none ↦ false | some h ↦ true ]
    && elim s.spent_confirmed_height [ none ↦ false | some h ↦ true ]

unfoldable pub all_spent_by : String → List NoteStatus → Bool
unfolding is_spent_by
all_spent_by txid [] = true
all_spent_by txid (s ∷ ss) = elim (is_spent_by txid s) [
  | true ↦ all_spent_by txid ss
  | false ↦ false
]

unfoldable pub all_unspent : List NoteStatus → Bool
all_unspent [] = true
all_unspent (s ∷ ss) = elim (str_eq s.state "unspent") [ true ↦ all_unspent ss | false ↦ false ]

unfoldable pub reconcile_final : Config → Attempt → Answers → ℕ → Db → Db
reconcile_final cfg a w now db = elim (scanner_proof cfg a w) [
  | none ↦ db
  | some (tip, s) ↦ if all_spent_by a.txid s.statuses then transition a final true now db else db
]

unfoldable pub reconcile_expired : Config → Attempt → Answers → ℕ → Db → Db
reconcile_expired cfg a w now db =
    if expiry_valid a
    then elim (scanner_proof cfg a w) [
      | none ↦ db
      | some (tip, s) ↦
          if ltb tip.height (a.expiry_height + cfg.default_confirmations)
          then db
          else if all_unspent s.statuses
          then transition a released true now db
          else db
    ]
    else db

-- The attempt expires: it is marked, and released if that is proved.
expire_then_release : Config → Attempt → Answers → ℕ → Db → Db
expire_then_release cfg a w now db =
    reconcile_expired cfg (record a { state = expired_pending_reconciliation }) w now
      (transition a expired_pending_reconciliation false now db)

on_orphaned : Config → Attempt → Answers → ℕ → Db → Db
on_orphaned cfg a w now db =
    let a' : Attempt = record a { state = orphaned } in
    let db' = transition a orphaned false now db in
    if past_expiry cfg a w.expiry_tip
    then expire_then_release cfg a' w now db'
    else reconcile_expired cfg a' w now db'

on_found : Config → Attempt → Answers → Transaction → ℕ → Db → Db
on_found cfg a w tx now db =
    if str_eq tx.state "mempool"
    then if past_expiry cfg a w.expiry_tip
      then expire_then_release cfg a w now db
      else transition a broadcast false now db
    else if str_eq tx.state "confirmed"
    then if leb cfg.default_confirmations tx.confirmations
      then reconcile_final cfg a w now db
      else transition a mined false now db
    else if str_eq tx.state "orphaned"
    then on_orphaned cfg a w now db
    else if str_eq tx.state "expired"
    then expire_then_release cfg a w now db
    else db

unfoldable pub reconcile_attempt : Config → Attempt → Answers → ℕ → Db → Db
unfolding expire_then_release on_orphaned on_found
reconcile_attempt cfg a w now db = elim w.lookup [
  | none ↦ db
  | some found ↦ elim found [
    | some tx ↦ on_found cfg a w tx now db
    | none ↦
        if past_expiry cfg a w.expiry_tip
        then expire_then_release cfg a w now db
        else reconcile_expired cfg a w now db
  ]
]
