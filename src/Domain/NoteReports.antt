-- ===== src/Domain/NoteReports.antt =====
-- `NoteStatus.validAt` in words: what a scanner can report of a note.
use juno_exchange_gateway.Domain.Hex.{is_lower_hex64, codes}
use juno_exchange_gateway.Prelude.{
  ℕ, ◌≡◌, refl, ◌≤◌, true, String, str_eq_iff, arith, Bool-cases, Option, Option-cases, inl, inr,
  none, some, str_eq, ◌&&◌, ◌<◌,
}
use juno_exchange_gateway.Domain.Notes.{NoteStatus, valid_at, is_none, pending_ok, spent_ok, known}

-- no spend of the note is known
abbrev pub IsUnspent : NoteStatus → Type 0
IsUnspent s = (s.spent_txid ≡ none) × (s.spent_height ≡ none) × (s.spent_confirmed_height ≡ none)

-- no spend of the note waits to be mined
abbrev pub IsSettled : NoteStatus → Type 0
IsSettled s =
    (s.pending_spent_txid ≡ none)
    × (s.pending_spent_at ≡ none)
    × (s.pending_spent_expiry_height ≡ none)

-- the note is in a block that was scanned
pub record IsKnown (height : ℕ) (s : NoteStatus) : Type 0 where
  pub source : ℕ
  pub value : ℕ
  pub source_eq : s.source_height ≡ some source
  pub value_eq : s.value_zat ≡ some value
  pub scanned : source ≤ height

-- a spend waits, seen at a time that is given, and not yet expired where it has an expiry
pub record IsPending (height : ℕ) (s : NoteStatus) : Type 0 where
  pub txid : String
  pub seen_at : ℕ
  pub txid_eq : s.pending_spent_txid ≡ some txid
  pub hex : is_lower_hex64 (codes txid) ≡ true
  pub seen_eq : s.pending_spent_at ≡ some seen_at
  pub seen : 0 < seen_at
  pub waits : (expiry : ℕ) → s.pending_spent_expiry_height ≡ some expiry → height ≤ expiry

-- the spend is in a block that was scanned, not before the note's own, and is confirmed at one that
-- was scanned, where it is confirmed
pub record IsSpent (height : ℕ) (s : NoteStatus) : Type 0 where
  pub txid : String
  pub spent : ℕ
  pub txid_eq : s.spent_txid ≡ some txid
  pub hex : is_lower_hex64 (codes txid) ≡ true
  pub spent_eq : s.spent_height ≡ some spent
  pub after_source : (source : ℕ) → s.source_height ≡ some source → source ≤ spent
  pub scanned : spent ≤ height
  pub confirmed : (at : ℕ) → s.spent_confirmed_height ≡ some at → (spent ≤ at) × (at ≤ height)

-- What a scanner at this height can report of a note, by its state.
pub data IsConsistentAt (height : ℕ) (s : NoteStatus) : Type 0 where
  report_unknown :
      s.state ≡ "unknown"
      → s.source_height ≡ none
      → s.value_zat ≡ none
      → IsSettled s
      → IsUnspent s
      → IsConsistentAt height s
  report_unspent :
      s.state ≡ "unspent" → IsKnown height s → IsSettled s → IsUnspent s → IsConsistentAt height s
  report_pending :
      s.state ≡ "pending"
      → IsKnown height s
      → IsPending height s
      → IsUnspent s
      → IsConsistentAt height s
  report_spent :
      s.state ≡ "spent"
      → IsKnown height s
      → IsSettled s
      → IsSpent height s
      → IsConsistentAt height s

known_sound :
    (height : ℕ) (s : NoteStatus)
    → known height s.source_height s.value_zat ≡ true
    → IsKnown height s
unfolding known
known_sound height s h = elim (Option-cases s.source_height) [
  | inl e ↦ absurd (ground (arith, h, e))
  | inr (source, e) ↦ elim (Option-cases s.value_zat) [
    | inl f ↦ absurd (ground (arith, h, e, f))
    | inr (value, f) ↦ record {
      source = source;
      value = value;
      source_eq = e;
      value_eq = f;
      scanned = ground (arith, h, e, f);
    }
  ]
]

pending_ok_sound : (height : ℕ) (s : NoteStatus) → pending_ok height s ≡ true → IsPending height s
unfolding pending_ok
pending_ok_sound height s h = elim (Option-cases s.pending_spent_txid) [
  | inl e ↦ absurd (ground (arith, h, e))
  | inr (txid, e) ↦ elim (Option-cases s.pending_spent_at) [
    | inl f ↦ absurd (ground (arith, h, e, f))
    | inr (at, f) ↦ record {
      txid = txid;
      seen_at = at;
      txid_eq = e;
      hex = ground (arith, h, e);
      seen_eq = f;
      seen = ground (arith, h, e, f);
      waits = λ expiry x. ground (arith, h, e, f, x);
    }
  ]
]

spent_ok_sound : (height : ℕ) (s : NoteStatus) → spent_ok height s ≡ true → IsSpent height s
unfolding spent_ok
spent_ok_sound height s h = elim (Option-cases s.spent_txid) [
  | inl e ↦ absurd (ground (arith, h, e))
  | inr (txid, e) ↦ elim (Option-cases s.spent_height) [
    | inl f ↦ absurd (ground (arith, h, e, f))
    | inr (spent, f) ↦ record {
      txid = txid;
      spent = spent;
      txid_eq = e;
      hex = ground (arith, h, e);
      spent_eq = f;
      after_source = λ source x. ground (arith, h, e, f, x);
      scanned = ground (arith, h, e, f);
      confirmed = λ at x. (ground (arith, h, e, f, x), ground (arith, h, e, f, x));
    }
  ]
]

is_none_eq {ℓ} : {A : Type ℓ} (o : Option A) → is_none o ≡ true → o ≡ none
is_none_eq none h = refl
is_none_eq (some a) h = absurd (ground arith)

is_none-IsSettled :
    (s : NoteStatus)
    → is_none s.pending_spent_txid
        && is_none s.pending_spent_at
        && is_none s.pending_spent_expiry_height
      ≡ true
    → IsSettled s
is_none-IsSettled s h = (
  is_none_eq _ (ground (arith, h)),
  is_none_eq _ (ground (arith, h)),
  is_none_eq _ (ground (arith, h)),
)

is_none-IsUnspent :
    (s : NoteStatus)
    → is_none s.spent_txid && is_none s.spent_height && is_none s.spent_confirmed_height ≡ true
    → IsUnspent s
is_none-IsUnspent s h = (
  is_none_eq _ (ground (arith, h)),
  is_none_eq _ (ground (arith, h)),
  is_none_eq _ (ground (arith, h)),
)

pub valid_at_sound :
    (height : ℕ) (s : NoteStatus) → valid_at height s ≡ true → IsConsistentAt height s
unfolding valid_at
valid_at_sound height s h = elim (Bool-cases (str_eq s.state "unknown")) [
  | inl u ↦
      report_unknown ((str_eq_iff s.state "unknown").0 u) (is_none_eq _ (ground (arith, h, u)))
        (is_none_eq _ (ground (arith, h, u))) (is_none-IsSettled s (ground (arith, h, u)))
        (is_none-IsUnspent s (ground (arith, h, u)))
  | inr u ↦ elim (Bool-cases (str_eq s.state "unspent")) [
    | inl v ↦
        report_unspent ((str_eq_iff s.state "unspent").0 v)
          (known_sound height s (ground (arith, h, u, v)))
          (is_none-IsSettled s (ground (arith, h, u, v)))
          (is_none-IsUnspent s (ground (arith, h, u, v)))
    | inr v ↦ elim (Bool-cases (str_eq s.state "pending")) [
      | inl w ↦
          report_pending ((str_eq_iff s.state "pending").0 w)
            (known_sound height s (ground (arith, h, u, v, w)))
            (pending_ok_sound height s (ground (arith, h, u, v, w)))
            (is_none-IsUnspent s (ground (arith, h, u, v, w)))
      | inr w ↦ elim (Bool-cases (str_eq s.state "spent")) [
        | inl x ↦
            report_spent ((str_eq_iff s.state "spent").0 x)
              (known_sound height s (ground (arith, h, u, v, w, x)))
              (is_none-IsSettled s (ground (arith, h, u, v, w, x)))
              (spent_ok_sound height s (ground (arith, h, u, v, w, x)))
        | inr x ↦ absurd (ground (arith, h, u, v, w, x))
      ]
    ]
  ]
]
