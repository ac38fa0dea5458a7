-- ===== src/Domain/Notes.antt =====
-- `NoteStatus`, `WalletNoteStatuses` and their checks.
use juno_exchange_gateway.Prelude.{
  ℕ, Bool, true, false, ◌&&◌, not, Option, none, some, List, [], ◌∷◌, String, str_eq, mem, leb,
  ◌==◌, length, if◌then◌else◌,
}
use juno_exchange_gateway.Domain.Hex.{codes, is_lower_hex64, valid_note_id}

pub record NoteStatus : Type 0 where
  pub note_id : String
  pub state : String
  pub source_height : Option ℕ
  pub value_zat : Option ℕ
  pub pending_spent_txid : Option String
  -- a time, 0 for the zero time
  pub pending_spent_at : Option ℕ
  pub pending_spent_expiry_height : Option ℕ
  pub spent_txid : Option String
  pub spent_height : Option ℕ
  pub spent_confirmed_height : Option ℕ

pub record WalletNoteStatuses : Type 0 where
  pub wallet_id : String
  pub event_epoch : String
  pub as_of_scanner_height : ℕ
  pub as_of_scanner_hash : String
  pub statuses : List NoteStatus

abbrev pub is_none {ℓ} : {A : Type ℓ} → Option A → Bool
is_none none = true
is_none (some a) = false

unfoldable pub known : ℕ → Option ℕ → Option ℕ → Bool
known scanner_height (some source) (some value) = leb source scanner_height
known scanner_height _ _ = false

unfoldable pub pending_ok : ℕ → NoteStatus → Bool
pending_ok scanner_height s = elim s.pending_spent_txid [
  | none ↦ false
  | some txid ↦
      is_lower_hex64 (codes txid)
      && elim s.pending_spent_at [ none ↦ false | some at ↦ not (at == 0) ]
      && elim s.pending_spent_expiry_height [
        | none ↦ true
        | some expiry ↦ leb scanner_height expiry
      ]
]

unfoldable pub spent_ok : ℕ → NoteStatus → Bool
spent_ok scanner_height s = elim s.spent_txid [
  | none ↦ false
  | some txid ↦ is_lower_hex64 (codes txid) && elim s.spent_height [
    | none ↦ false
    | some spent ↦
        elim s.source_height [ none ↦ false | some source ↦ leb source spent ]
        && leb spent scanner_height
        && elim s.spent_confirmed_height [
          | none ↦ true
          | some confirmed ↦ leb spent confirmed && leb confirmed scanner_height
        ]
  ]
]

-- `NoteStatus.validAt`
unfoldable pub valid_at : ℕ → NoteStatus → Bool
unfolding known pending_ok spent_ok
valid_at scanner_height s =
    let source_known = known scanner_height s.source_height s.value_zat in
    let no_source = is_none s.source_height && is_none s.value_zat in
    let no_pending =
      is_none s.pending_spent_txid
      && is_none s.pending_spent_at
      && is_none s.pending_spent_expiry_height in
    let no_spent =
      is_none s.spent_txid && is_none s.spent_height && is_none s.spent_confirmed_height in
    if str_eq s.state "unknown"
    then no_source && no_pending && no_spent
    else if str_eq s.state "unspent"
    then source_known && no_pending && no_spent
    else if str_eq s.state "pending"
    then source_known && no_spent && pending_ok scanner_height s
    else if str_eq s.state "spent"
    then source_known && no_pending && spent_ok scanner_height s
    else false

-- the loop of `WalletNoteStatuses.ValidFor`; `seen` are the IDs before
unfoldable pub statuses_match : ℕ → List String → List String → List NoteStatus → Bool
statuses_match height seen [] [] = true
statuses_match height seen [] (s ∷ ss) = false
statuses_match height seen (id ∷ ids) [] = false
statuses_match height seen (id ∷ ids) (s ∷ ss) =
    elim (valid_note_id (codes id)
      && not (mem id seen)
      && str_eq s.note_id id
      && valid_at height s) [ true ↦ statuses_match height (id ∷ seen) ids ss | false ↦ false ]

unfoldable pub valid_for : String → List String → WalletNoteStatuses → Bool
valid_for wallet ids s =
    str_eq s.wallet_id wallet
    && is_lower_hex64 (codes s.event_epoch)
    && is_lower_hex64 (codes s.as_of_scanner_hash)
    && (length s.statuses == length ids)
    && leb 1 (length ids)
    && leb (length ids) 200
    && statuses_match s.as_of_scanner_height [] ids s.statuses
