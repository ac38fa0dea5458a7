-- ===== src/Domain/NoteLaws.antt =====
-- What an accepted answer on note statuses says.
use juno_exchange_gateway.Domain.NoteReports.{IsConsistentAt, valid_at_sound}
use juno_exchange_gateway.Prelude.{
  ℕ, ◌≡◌, refl, ◌≤◌, true, false, List, [], ◌∷◌, String, str_eq_iff, mem, arith, map, length,
}
use juno_exchange_gateway.Domain.Notes.{NoteStatus, WalletNoteStatuses, statuses_match, valid_for}

-- no ID of the list stands twice in it, or in `seen`
abbrev pub IsFresh : List String → List String → Type 0
IsFresh seen [] = Unit
IsFresh seen (id ∷ ids) = (mem id seen ≡ false) × IsFresh (id ∷ seen) ids

abbrev pub AllConsistentAt : ℕ → List NoteStatus → Type 0
AllConsistentAt height [] = Unit
AllConsistentAt height (s ∷ ss) = IsConsistentAt height s × AllConsistentAt height ss

pub statuses_match_sound :
    (height : ℕ) (seen ids : List String) (ss : List NoteStatus)
    → statuses_match height seen ids ss ≡ true
    → (map (λ s. s.note_id) ss ≡ ids) × IsFresh seen ids × AllConsistentAt height ss
unfolding statuses_match
statuses_match_sound height seen [] [] h = (refl, tt, tt)
statuses_match_sound height seen [] (s ∷ ss) h = absurd (cc h)
statuses_match_sound height seen (id ∷ ids) [] h = absurd (cc h)
statuses_match_sound height seen (id ∷ ids) (s ∷ ss) h = ground (
  arith,
  statuses_match_sound height (id ∷ seen) ids ss,
  valid_at_sound height s,
  str_eq_iff s.note_id id,
)

-- An accepted answer reports on exactly the notes asked for, in their order and each once, at most
-- 200 of them. Each report is one that a scanner at the answer's height can give: an unknown note has
-- no fields; any other was received at a scanned height, and is unspent, or has a pending spend that
-- is not expired at that height, or was spent at a scanned height that is not below its own.
pub valid_for_sound :
    (wallet : String) (ids : List String) (s : WalletNoteStatuses)
    → valid_for wallet ids s ≡ true
    → (s.wallet_id ≡ wallet)
      × (map (λ x. x.note_id) s.statuses ≡ ids)
      × IsFresh [] ids
      × AllConsistentAt s.as_of_scanner_height s.statuses
      × (1 ≤ length ids)
      × (length ids ≤ 200)
unfolding valid_for
valid_for_sound wallet ids s h = ground (
  arith,
  statuses_match_sound s.as_of_scanner_height [] ids s.statuses,
  str_eq_iff s.wallet_id wallet,
)
