-- ===== src/Coordinator/Reconcile/Proofs.antt =====
-- Notes are given back only on proof.
use juno_exchange_gateway.Coordinator.Reconcile.Moves.{transition-StateIs}
use juno_exchange_gateway.Attempts.States.{StateIs}
use juno_exchange_gateway.Coordinator.Reconcile.Evidence.{
  IsProof, scanner_proof_sound, AllUnspent, AllSpentBy, all_unspent_sound, all_spent_by_sound,
}
use juno_exchange_gateway.Prelude.{
  ℕ, ◌+◌, ◌≤◌, ◌≡◌, ◌≢◌, inl, inr, true, false, none, some, String, arith, Option-cases, Bool-cases,
  leb, ltb, if◌then◌else◌, str_eq, str_eq_iff, ◌<◌,
}
use juno_exchange_gateway.State.{
  State, released, final, expired_pending_reconciliation, orphaned, broadcast, mined,
}
use juno_exchange_gateway.Domain.Network.{NodeTip, Transaction}
use juno_exchange_gateway.Domain.Notes.{WalletNoteStatuses}
use juno_exchange_gateway.Db.{Attempt, Db, find_attempt}
use juno_exchange_gateway.Coordinator.Request.{Config}
use juno_exchange_gateway.Coordinator.Reconcile.{
  Answers, scanner_proof, all_spent_by, all_unspent, reconcile_final, reconcile_expired,
  expire_then_release, on_orphaned, on_found, reconcile_attempt, expiry_valid, past_expiry,
}

-- What releasing the notes of an attempt rests on: a scan of its notes at the node's own tip, at
-- least the configured confirmations past the expiry, with every note unspent.
pub record ReleaseReady (cfg : Config) (a : Attempt) (w : Answers) : Type 0 where
  pub tip : NodeTip
  pub notes : WalletNoteStatuses
  pub proof : IsProof cfg a w tip notes
  pub expires : 0 < a.expiry_height
  pub deep : a.expiry_height + cfg.default_confirmations ≤ tip.height
  pub unspent : AllUnspent notes.statuses

-- What finality rests on: the node's confirmations, and a scan at the node's own tip in which every
-- note is spent by this very transaction.
pub record FinalReady (cfg : Config) (a : Attempt) (w : Answers) : Type 0 where
  pub tx : Transaction
  pub found : w.lookup ≡ some (some tx)
  pub confirmed : tx.state ≡ "confirmed"
  pub confirmations : cfg.default_confirmations ≤ tx.confirmations
  pub tip : NodeTip
  pub notes : WalletNoteStatuses
  pub proof : IsProof cfg a w tip notes
  pub spent : AllSpentBy a.txid notes.statuses

expiry_valid-pos : (a : Attempt) → expiry_valid a ≡ true → 0 < a.expiry_height
unfolding expiry_valid
expiry_valid-pos a h = ground arith

-- The proof does not depend on the state in hand.
with_state-ReleaseReady :
    (cfg : Config) (a : Attempt) (s : State) (w : Answers)
    → ReleaseReady cfg (record a { state = s }) w
    → ReleaseReady cfg a w
with_state-ReleaseReady cfg a s w r =
    let p = r.proof in
    record {
      tip = r.tip;
      notes = r.notes;
      proof = record {
        tip_eq = p.tip_eq;
        notes_eq = p.notes_eq;
        network_eq = p.network_eq;
        synced = p.synced;
        health = p.health;
        health_eq = p.health_eq;
        ready = p.ready;
        complete = p.complete;
        pending_ready = p.pending_ready;
        confirmations_eq = p.confirmations_eq;
        scanned_height_eq = p.scanned_height_eq;
        scanned_hash_eq = p.scanned_hash_eq;
        height_eq = p.height_eq;
        hash_eq = p.hash_eq;
        wallet_eq = p.wallet_eq;
        notes_asked = p.notes_asked;
        consistent = p.consistent;
      };
      expires = r.expires;
      deep = r.deep;
      unspent = r.unspent;
    }

module _ (P : State → Type 0) (id : String) (cfg : Config) (w : Answers) (now : ℕ) where
  reconcile_expired-StateIs :
      (a : Attempt) (db : Db)
      → (ReleaseReady cfg a w → P released)
      → StateIs P id db
      → StateIs P id (reconcile_expired cfg a w now db)
  unfolding reconcile_expired
  reconcile_expired-StateIs a db ready v = elim (Bool-cases (expiry_valid a)) [
    | inr e ↦ rw (e, if◌then◌else◌) v
    | inl e ↦ elim (Option-cases (scanner_proof cfg a w)) [
      | inl n ↦ rw (e, n, if◌then◌else◌) v
      | inr ((tip, notes), n) ↦
          elim (Bool-cases (ltb tip.height (a.expiry_height + cfg.default_confirmations))) [
            | inl l ↦ rw (e, n, l) v
            | inr l ↦ elim (Bool-cases (all_unspent notes.statuses)) [
              | inr u ↦ rw (e, n, l, u) v
              | inl u ↦
                  rw (e, n, l, u)
                    (transition-StateIs P id a released true now db
                      (ready (record {
                        tip = tip;
                        notes = notes;
                        proof = scanner_proof_sound cfg a w tip notes n;
                        expires = expiry_valid-pos a e;
                        deep = ground arith;
                        unspent = all_unspent_sound notes.statuses u;
                      }))
                      v)
            ]
          ]
    ]
  ]

  reconcile_final-StateIs :
      (a : Attempt) (tx : Transaction) (db : Db)
      → w.lookup ≡ some (some tx)
      → tx.state ≡ "confirmed"
      → cfg.default_confirmations ≤ tx.confirmations
      → (FinalReady cfg a w → P final)
      → StateIs P id db
      → StateIs P id (reconcile_final cfg a w now db)
  unfolding reconcile_final
  reconcile_final-StateIs a tx db found confirmed enough ready v =
      elim (Option-cases (scanner_proof cfg a w)) [
        | inl n ↦ rw (n, reconcile_final) v
        | inr ((tip, notes), n) ↦ elim (Bool-cases (all_spent_by a.txid notes.statuses)) [
          | inr u ↦ rw (n, u, reconcile_final) v
          | inl u ↦
              rw (n, u, reconcile_final)
                (transition-StateIs P id a final true now db
                  (ready (record {
                    tx = tx;
                    found = found;
                    confirmed = confirmed;
                    confirmations = enough;
                    tip = tip;
                    notes = notes;
                    proof = scanner_proof_sound cfg a w tip notes n;
                    spent = all_spent_by_sound a.txid notes.statuses u;
                  }))
                  v)
        ]
      ]

  module _ (a : Attempt) (db : Db) (released_if : ReleaseReady cfg a w → P released)
      (final_if : FinalReady cfg a w → P final) (expired_too : P expired_pending_reconciliation)
      (orphaned_too : P orphaned) (broadcast_too : P broadcast) (mined_too : P mined) where
    expire_then_release-StateIs :
        (s : State) (db' : Db)
        → StateIs P id db'
        → StateIs P id (expire_then_release cfg (record a { state = s }) w now db')
    unfolding expire_then_release
    expire_then_release-StateIs s db' v =
        reconcile_expired-StateIs (record a { state = expired_pending_reconciliation }) _
          (λ r. released_if (with_state-ReleaseReady cfg a expired_pending_reconciliation w r))
          (transition-StateIs P id (record a { state = s }) _ false now db' expired_too v)

    on_orphaned-StateIs : StateIs P id db → StateIs P id (on_orphaned cfg a w now db)
    unfolding on_orphaned
    on_orphaned-StateIs v =
        let v' = transition-StateIs P id a orphaned false now db orphaned_too v in
        elim (Bool-cases (past_expiry cfg a w.expiry_tip)) [
          | inl e ↦ rw (e, if◌then◌else◌) (expire_then_release-StateIs orphaned _ v')
          | inr e ↦
              rw (e, if◌then◌else◌)
                (reconcile_expired-StateIs (record a { state = orphaned }) _
                  (λ r. released_if (with_state-ReleaseReady cfg a orphaned w r)) v')
        ]

    on_found-StateIs :
        (tx : Transaction)
        → w.lookup ≡ some (some tx)
        → StateIs P id db
        → StateIs P id (on_found cfg a w tx now db)
    unfolding on_found
    on_found-StateIs tx found v = elim (Bool-cases (str_eq tx.state "mempool")) [
      | inl m ↦ elim (Bool-cases (past_expiry cfg a w.expiry_tip)) [
        | inl e ↦ rw (m, e, on_found) (expire_then_release-StateIs a.state db v)
        | inr e ↦
            rw (m, e, on_found) (transition-StateIs P id a broadcast false now db broadcast_too v)
      ]
      | inr m ↦ elim (Bool-cases (str_eq tx.state "confirmed")) [
        | inl c ↦ elim (Bool-cases (leb cfg.default_confirmations tx.confirmations)) [
          | inl e ↦
              rw (m, c, e, on_found)
                (reconcile_final-StateIs a tx db found ((str_eq_iff tx.state "confirmed").0 c)
                  (ground arith) final_if v)
          | inr e ↦
              rw (m, c, e, on_found) (transition-StateIs P id a mined false now db mined_too v)
        ]
        | inr c ↦ elim (Bool-cases (str_eq tx.state "orphaned")) [
          | inl o ↦ rw (m, c, o, on_found) (on_orphaned-StateIs v)
          | inr o ↦ elim (Bool-cases (str_eq tx.state "expired")) [
            | inl x ↦ rw (m, c, o, x, on_found) (expire_then_release-StateIs a.state db v)
            | inr x ↦ rw (m, c, o, x, on_found) v
          ]
        ]
      ]
    ]

    reconcile_attempt-StateIs : StateIs P id db → StateIs P id (reconcile_attempt cfg a w now db)
    unfolding reconcile_attempt
    reconcile_attempt-StateIs v = elim (Option-cases w.lookup) [
      | inl n ↦ rw (n, reconcile_attempt) v
      | inr (none, n) ↦ elim (Bool-cases (past_expiry cfg a w.expiry_tip)) [
        | inl e ↦ rw (n, e, reconcile_attempt) (expire_then_release-StateIs a.state db v)
        | inr e ↦ rw (n, e, reconcile_attempt) (reconcile_expired-StateIs a db released_if v)
      ]
      | inr (some tx, n) ↦ rw (n, reconcile_attempt) (on_found-StateIs tx n v)
    ]

-- An attempt that was not released is released by reconciliation only on proof: a complete scan of
-- its notes at the tip of the node itself, at least the configured confirmations past its expiry,
-- with every note unspent.
pub released_needs_proof :
    (id : String) (cfg : Config) (w : Answers) (now : ℕ) (a : Attempt) (db : Db) (b : Attempt)
    → StateIs (λ s. s ≢ released) id db
    → find_attempt id (reconcile_attempt cfg a w now db).attempts ≡ some b
    → b.state ≡ released
    → ReleaseReady cfg a w
released_needs_proof id cfg w now a db b before found at =
    reconcile_attempt-StateIs (λ s. s ≡ released → ReleaseReady cfg a w) id cfg w now a db
      (λ r e. r) (λ f e. absurd (cc e)) (λ e. absurd (cc e)) (λ e. absurd (cc e))
      (λ e. absurd (cc e)) (λ e. absurd (cc e)) (λ c h e. absurd (before c h e)) b found at

-- An attempt that was not final is made final by reconciliation only on proof: the node reports the
-- configured confirmations, and a complete scan at the tip of the node itself shows every note spent
-- by this very transaction.
pub final_needs_proof :
    (id : String) (cfg : Config) (w : Answers) (now : ℕ) (a : Attempt) (db : Db) (b : Attempt)
    → StateIs (λ s. s ≢ final) id db
    → find_attempt id (reconcile_attempt cfg a w now db).attempts ≡ some b
    → b.state ≡ final
    → FinalReady cfg a w
final_needs_proof id cfg w now a db b before found at =
    reconcile_attempt-StateIs (λ s. s ≡ final → FinalReady cfg a w) id cfg w now a db
      (λ r e. absurd (cc e)) (λ f e. f) (λ e. absurd (cc e)) (λ e. absurd (cc e))
      (λ e. absurd (cc e)) (λ e. absurd (cc e)) (λ c h e. absurd (before c h e)) b found at
