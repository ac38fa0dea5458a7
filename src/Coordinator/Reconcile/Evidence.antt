-- ===== src/Coordinator/Reconcile/Evidence.antt =====
-- What the scanner's proof says, and what its note reports say.
use juno_exchange_gateway.Prelude.{
  ◌≡◌, ◌≢◌, true, false, none, some, List, [], ◌∷◌, String, str_eq_iff, arith, Option-cases, inl,
  inr, map,
}
use juno_exchange_gateway.Domain.Network.{node_chain, NodeTip, ScannerHealth}
use juno_exchange_gateway.Domain.Notes.{NoteStatus, WalletNoteStatuses, valid_for}
use juno_exchange_gateway.Domain.NoteLaws.{AllConsistentAt, valid_for_sound}
use juno_exchange_gateway.Db.{Attempt}
use juno_exchange_gateway.Coordinator.Request.{Config}
use juno_exchange_gateway.Coordinator.Reconcile.{
  Answers, scanner_proof, tip_ok, health_ok, statuses_ok, is_spent_by, all_spent_by, all_unspent,
}

-- A scan of the notes of `a`, complete and at the tip of the node itself.
pub record IsProof (cfg : Config) (a : Attempt) (w : Answers) (tip : NodeTip)
    (notes : WalletNoteStatuses) : Type 0 where
  pub tip_eq : w.proof_tip ≡ some tip
  pub notes_eq : w.statuses ≡ some (some notes)
  pub network_eq : tip.network ≡ node_chain cfg.network
  pub synced : tip.initial_block_download ≡ false
  pub health : ScannerHealth
  pub health_eq : w.health ≡ some health
  pub ready : health.ready ≡ some true
  pub complete : health.history_complete ≡ some true
  pub pending_ready : health.pending_spends_ready ≡ some true
  pub confirmations_eq : health.confirmations ≡ some cfg.default_confirmations
  pub scanned_height_eq : health.scanned_height ≡ some tip.height
  pub scanned_hash_eq : health.scanned_hash ≡ tip.hash
  pub height_eq : notes.as_of_scanner_height ≡ tip.height
  pub hash_eq : notes.as_of_scanner_hash ≡ tip.hash
  pub wallet_eq : notes.wallet_id ≡ a.wallet_id
  pub notes_asked : map (λ s. s.note_id) notes.statuses ≡ a.selected_note_ids
  pub consistent : AllConsistentAt tip.height notes.statuses

health_ok_sound :
    (cfg : Config) (tip : NodeTip) (h : ScannerHealth)
    → health_ok cfg tip h ≡ true
    → (h.ready ≡ some true)
      × (h.history_complete ≡ some true)
      × (h.pending_spends_ready ≡ some true)
      × (h.confirmations ≡ some cfg.default_confirmations)
      × (h.scanned_height ≡ some tip.height)
      × (h.scanned_hash ≡ tip.hash)
unfolding health_ok
health_ok_sound cfg tip h ok = ground (arith, str_eq_iff h.scanned_hash tip.hash)

statuses_ok_sound :
    (a : Attempt) (tip : NodeTip) (s : WalletNoteStatuses)
    → statuses_ok a tip s ≡ true
    → (s.as_of_scanner_height ≡ tip.height)
      × (s.as_of_scanner_hash ≡ tip.hash)
      × (valid_for a.wallet_id a.selected_note_ids s ≡ true)
unfolding statuses_ok
statuses_ok_sound a tip s ok = ground (arith, str_eq_iff s.as_of_scanner_hash tip.hash)

-- The answers that a proof came from.
scanner_proof_parts :
    (cfg : Config) (a : Attempt) (w : Answers) (tip : NodeTip) (notes : WalletNoteStatuses)
    → scanner_proof cfg a w ≡ some (tip, notes)
    → (h : ScannerHealth) × (w.proof_tip ≡ some tip)
      × (w.health ≡ some h)
      × (w.statuses ≡ some (some notes))
      × (tip_ok cfg tip ≡ true)
      × (health_ok cfg tip h ≡ true)
      × (statuses_ok a tip notes ≡ true)
unfolding scanner_proof
scanner_proof_parts cfg a w tip notes e = elim (Option-cases w.health) [
  | inl n ↦ absurd (ground arith)
  | inr (h, n) ↦ (h, ground arith, n, ground arith, ground arith, ground arith, ground arith)
]

pub scanner_proof_sound :
    (cfg : Config) (a : Attempt) (w : Answers) (tip : NodeTip) (notes : WalletNoteStatuses)
    → scanner_proof cfg a w ≡ some (tip, notes)
    → IsProof cfg a w tip notes
unfolding tip_ok
scanner_proof_sound cfg a w tip notes e =
    let (h, at, he, ne, t, ho, so) = scanner_proof_parts cfg a w tip notes e in
    let hs = health_ok_sound cfg tip h ho in
    let ss = statuses_ok_sound a tip notes so in
    let vs = valid_for_sound a.wallet_id a.selected_note_ids notes ss.2 in
    record {
      tip_eq = at;
      notes_eq = ne;
      network_eq = ground (arith, str_eq_iff tip.network (node_chain cfg.network));
      synced = ground arith;
      health = h;
      health_eq = he;
      ready = hs.0;
      complete = hs.1;
      pending_ready = hs.2;
      confirmations_eq = hs.3;
      scanned_height_eq = hs.4;
      scanned_hash_eq = hs.5;
      height_eq = ss.0;
      hash_eq = ss.1;
      wallet_eq = vs.0;
      notes_asked = vs.1;
      consistent = rw ss.0 at vs.3;
    }

abbrev pub AllUnspent : List NoteStatus → Type 0
AllUnspent [] = Unit
AllUnspent (s ∷ ss) = (s.state ≡ "unspent") × AllUnspent ss

abbrev pub AllSpentBy : String → List NoteStatus → Type 0
AllSpentBy txid [] = Unit
AllSpentBy txid (s ∷ ss) =
    (s.state ≡ "spent")
    × (s.spent_txid ≡ some txid)
    × (s.spent_confirmed_height ≢ none)
    × AllSpentBy txid ss

pub all_unspent_sound : (ss : List NoteStatus) → all_unspent ss ≡ true → AllUnspent ss
unfolding all_unspent
all_unspent_sound [] h = tt
all_unspent_sound (s ∷ ss) h = ground (arith, all_unspent_sound ss, str_eq_iff s.state "unspent")

is_spent_by_sound :
    (txid : String) (s : NoteStatus)
    → is_spent_by txid s ≡ true
    → (s.state ≡ "spent") × (s.spent_txid ≡ some txid) × (s.spent_confirmed_height ≢ none)
unfolding is_spent_by
is_spent_by_sound txid s h = elim (Option-cases s.spent_txid) [
  | inl n ↦ absurd (ground arith)
  | inr (t, n) ↦ ground (arith, str_eq_iff s.state "spent", str_eq_iff t txid)
]

pub all_spent_by_sound :
    (txid : String) (ss : List NoteStatus) → all_spent_by txid ss ≡ true → AllSpentBy txid ss
unfolding all_spent_by
all_spent_by_sound txid [] h = tt
all_spent_by_sound txid (s ∷ ss) h =
    ground (arith, all_spent_by_sound txid ss, is_spent_by_sound txid s)
