-- ===== src/Gateway/Reads/Snapshot.antt =====
-- Answers that belong to one snapshot of the scanner.
use juno_exchange_gateway.Domain.Notes.{WalletNoteStatuses, valid_for}
use juno_exchange_gateway.Domain.Network.{ScannerHealth}
use mathlib.Core.Path.{subst}
use juno_exchange_gateway.Gateway.Reads.{
  snapshot, NoteReply, NoteStatusesData, ReadsConfig, answer_statuses, handle_note_statuses,
  read_statuses, same_snapshot, snapshot_changed, invalid_reply, request_failed, wallet_missing,
}
use juno_exchange_gateway.Gateway.Requests.{Body, decode_json}
use juno_exchange_gateway.Gateway.Response.{data_of, Response-cases}
use juno_exchange_gateway.Gateway.Deposits.Continues.{Ready-cases}
use juno_exchange_gateway.Gateway.Ready.Attested.{is_at_sound}
use juno_exchange_gateway.Gateway.Ready.{Ready, Readiness, ready_for}
use juno_exchange_gateway.Prelude.{
  Bool, List, String, arith, inl, inr, refl, some, str_eq_iff, sym, true, ℕ, ◌∙◌, ◌≡◌, ◌⊎◌,
}

-- The answer is of one snapshot: the scanner's, and that of the readiness before and after it.
pub record IsSnapshot (wallet_id : String) (notes : List String) (before after : Ready)
    (s : WalletNoteStatuses) (d : NoteStatusesData) : Type 0 where
  pub ready_before : Readiness
  pub ready_after : Readiness
  pub before_eq : before ≡ ready_for ready_before
  pub after_eq : after ≡ ready_for ready_after
  pub valid_eq : valid_for wallet_id notes s ≡ true
  pub statuses_eq : d.statuses ≡ s.statuses
  pub height_before : ready_before.scanner.scanned_height ≡ some d.as_of_scanner_height
  pub height_after : ready_after.scanner.scanned_height ≡ some d.as_of_scanner_height
  pub hash_before : ready_before.scanner.scanned_hash ≡ d.as_of_scanner_hash
  pub hash_after : ready_after.scanner.scanned_hash ≡ d.as_of_scanner_hash
  pub epoch_before : ready_before.scanner.event_epoch ≡ d.event_epoch
  pub epoch_after : ready_after.scanner.event_epoch ≡ d.event_epoch

same_snapshot_sound :
    (s : WalletNoteStatuses) (before after : ScannerHealth)
    → same_snapshot s before after ≡ true
    → (before.scanned_height ≡ some s.as_of_scanner_height)
      × (after.scanned_height ≡ some s.as_of_scanner_height)
      × (before.scanned_hash ≡ s.as_of_scanner_hash)
      × (after.scanned_hash ≡ s.as_of_scanner_hash)
      × (before.event_epoch ≡ s.event_epoch)
      × (after.event_epoch ≡ s.event_epoch)
unfolding same_snapshot
same_snapshot_sound s before after h =
    let hash = (str_eq_iff s.as_of_scanner_hash before.scanned_hash).0 (ground (arith, h)) in
    let epoch = (str_eq_iff s.event_epoch before.event_epoch).0 (ground (arith, h)) in
    (
      is_at_sound before.scanned_height s.as_of_scanner_height (ground (arith, h)),
      is_at_sound after.scanned_height s.as_of_scanner_height (ground (arith, h)),
      sym hash,
      (str_eq_iff after.scanned_hash before.scanned_hash).0 (ground (arith, h)) ∙ sym hash,
      sym epoch,
      (str_eq_iff after.event_epoch before.event_epoch).0 (ground (arith, h)) ∙ sym epoch,
    )

answer_statuses_sound :
    (wallet_id : String) (notes : List String) (r : Readiness) (s : WalletNoteStatuses)
    (after : Ready) (status : ℕ) (d : NoteStatusesData)
    → answer_statuses wallet_id notes r s after ≡ data_of status d
    → IsSnapshot wallet_id notes (ready_for r) after s d
unfolding answer_statuses
answer_statuses_sound wallet_id notes r s after status d h = elim (Ready-cases after) [
  | inl (code, a) ↦ absurd (ground (arith, h, a))
  | inr (r', a) ↦
      let valid : valid_for wallet_id notes s ≡ true = ground (arith, h, a) in
      let same : same_snapshot s r.scanner r'.scanner ≡ true = ground (arith, h, a) in
      let k = same_snapshot_sound s r.scanner r'.scanner same in
      let i : record {
        wallet_id = wallet_id;
        as_of_node_height = r.node.height;
        as_of_scanner_height = s.as_of_scanner_height;
        as_of_scanner_hash = s.as_of_scanner_hash;
        scanner_lag = r.scanner_lag;
        event_epoch = s.event_epoch;
        statuses = s.statuses;
      }
          ≡ d =
        ground (arith, h, a) in
      subst (IsSnapshot wallet_id notes (ready_for r) after s) i (record {
        ready_before = r;
        ready_after = r';
        before_eq = refl;
        after_eq = a;
        valid_eq = valid;
        statuses_eq = refl;
        height_before = k.0;
        height_after = k.1;
        hash_before = k.2;
        hash_after = k.3;
        epoch_before = k.4;
        epoch_after = k.5;
      })
]

NoteReply-cases :
    (r : NoteReply)
    → ((s : WalletNoteStatuses) × (r ≡ snapshot s))
      ⊎ ((r ≡ snapshot_changed)
          ⊎ ((r ≡ invalid_reply) ⊎ ((r ≡ request_failed) ⊎ (r ≡ wallet_missing))))
NoteReply-cases (snapshot s) = inl (s, refl)
NoteReply-cases snapshot_changed = inr (inl refl)
NoteReply-cases invalid_reply = inr (inr (inl refl))
NoteReply-cases request_failed = inr (inr (inr (inl refl)))
NoteReply-cases wallet_missing = inr (inr (inr (inr refl)))

-- The note statuses that the gateway answers with are those of the request's notes, valid for
-- them, in one snapshot of the scanner: the height, the hash and the epoch that the answer names are those
-- of the readiness before and after the scanner was asked.
pub handle_note_statuses-IsSnapshot :
    (cfg : ReadsConfig) (wallet_id : String) (known : Bool) (body : Body (List String))
    (before after : Ready) (ask : List String → NoteReply) (status : ℕ) (d : NoteStatusesData)
    → handle_note_statuses cfg wallet_id known body before ask after ≡ data_of status d
    → (n : ℕ) × (notes : List String) × (s : WalletNoteStatuses) × (decode_json cfg.json_body_bytes
          body
        ≡ data_of n notes)
      × (ask notes ≡ snapshot s)
      × IsSnapshot wallet_id notes before after s d
unfolding handle_note_statuses read_statuses
handle_note_statuses-IsSnapshot cfg wallet_id known body before after ask status d h =
    elim (Response-cases (decode_json cfg.json_body_bytes body)) [
      | inr (e, b) ↦ absurd (ground (arith, h, b))
      | inl (n, notes, b) ↦ elim (Ready-cases before) [
        | inl (code, r) ↦ absurd (ground (arith, h, b, r))
        | inr (r', r) ↦ elim (NoteReply-cases (ask notes)) [
          | inl (s, a) ↦
              let k =
                answer_statuses_sound wallet_id notes r' s after status d
                  (ground (arith, h, b, r, a)) in
              (n, notes, s, b, a, subst (λ x. IsSnapshot wallet_id notes x after s d) (sym r) k)
          | inr (inl a) ↦ absurd (ground (arith, h, b, r, a))
          | inr (inr (inl a)) ↦ absurd (ground (arith, h, b, r, a))
          | inr (inr (inr (inl a))) ↦ absurd (ground (arith, h, b, r, a))
          | inr (inr (inr (inr a))) ↦ absurd (ground (arith, h, b, r, a))
        ]
      ]
    ]
