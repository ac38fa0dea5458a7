-- ===== src/Addresses.antt =====
-- The address indices of a wallet. internal/installation/state.go keeps the next index and the
-- skipped ones outside of the database, internal/storage/guarded/guarded.go allocates with it, and
-- internal/lifecycle/lifecycle.go compares it with the rows of the database at startup. The manifest's
-- other fields, its file and its lock are not modelled: an operation reads, changes and writes the
-- manifest as one step.
pub mod Coverage
pub mod Allocation
use juno_exchange_gateway.Prelude.{
  ℕ, ◌+◌, ◌^◌, Bool, true, false, ◌&&◌, ◌||◌, not, Option, none, some, List, [], ◌∷◌, String,
  str_eq, ltb, leb, ◌==◌, if◌then◌else◌,
}

-- `WalletState`, the part that changes
pub record WalletState : Type 0 where
  pub next_address_index : ℕ
  pub skipped_address_indices : List ℕ

-- the loop of `verifyManifest`: reserved, and in strict order; `previous` is the index before
ordered_after : ℕ → ℕ → List ℕ → Bool
ordered_after next previous [] = true
ordered_after next previous (i ∷ is) = elim (ltb i next && ltb previous i) [
  | true ↦ ordered_after next i is
  | false ↦ false
]

unfoldable pub verify_skipped : WalletState → Bool
unfolding ordered_after
verify_skipped w = elim w.skipped_address_indices [
  | [] ↦ true
  | i ∷ is ↦ ltb i w.next_address_index && ordered_after w.next_address_index i is
]

-- the high-water mark of `verifyManifest`
unfoldable pub verify_high_water : WalletState → Bool
verify_high_water w = leb w.next_address_index (2 ^ 32)

-- `ReserveAddressIndex`, for a wallet of the installation
unfoldable pub reserve_address_index : WalletState → Option ℕ × WalletState
reserve_address_index w =
    if leb (2 ^ 32) w.next_address_index
    then (none, w)
    else (some w.next_address_index, record w { next_address_index = w.next_address_index + 1 })

-- The insertion at the place that `sort.Search` finds in a list in order.
unfoldable pub insert_index : ℕ → List ℕ → List ℕ
insert_index i [] = i ∷ []
insert_index i (j ∷ js) =
    let rest = insert_index i js in
    if ltb j i then j ∷ rest else if j == i then j ∷ js else i ∷ j ∷ js

-- `MarkAddressIndexSkipped`; `none` is the error
unfoldable pub mark_address_index_skipped : ℕ → WalletState → Option WalletState
mark_address_index_skipped index w =
    if leb w.next_address_index index
    then none
    else some (record w { skipped_address_indices = insert_index index w.skipped_address_indices })

-- `ClearSkippedAddressIndices`, of one wallet
unfoldable pub clear_skipped : WalletState → WalletState
clear_skipped w = record w { skipped_address_indices = [] }

-- `RaiseHighWater`, of one wallet; `none` is the error
unfoldable pub raise_high_water : ℕ → WalletState → Option WalletState
raise_high_water target w =
    if ltb (2 ^ 32) target || ltb target w.next_address_index
    then none
    else some (record w { next_address_index = target })

-- The loop of `verifyAddressCoverage`, `none` where an index is missing.
unfoldable pub coverage : ℕ → List ℕ → List ℕ → Option ℕ
coverage covered [] [] = some covered
coverage covered [] (s ∷ ss) = elim (s == covered) [
  | true ↦ coverage (covered + 1) [] ss
  | false ↦ none
]
coverage covered (p ∷ ps) [] = elim (p == covered) [
  | true ↦ coverage (covered + 1) ps []
  | false ↦ none
]
coverage covered (p ∷ ps) (s ∷ ss) = elim (ltb p s) [
  | true ↦ elim (p == covered) [ true ↦ coverage (covered + 1) ps (s ∷ ss) | false ↦ none ]
  | false ↦ elim (ltb s p) [
    | true ↦ elim (s == covered) [ true ↦ coverage (covered + 1) (p ∷ ps) ss | false ↦ none ]
    | false ↦ elim (p == covered) [ true ↦ coverage (covered + 1) ps ss | false ↦ none ]
  ]
]

-- `verifyAddressCoverage`
unfoldable pub verify_address_coverage : ℕ → List ℕ → List ℕ → Bool
verify_address_coverage next skipped present = elim (coverage 0 present skipped) [
  | none ↦ false
  | some covered ↦ covered == next
]

-- What is kept of one wallet: the manifest and the indices of its rows in the database.
pub record Ledger : Type 0 where
  pub wallet : WalletState
  pub present : List ℕ

-- `AllocateAddress` of the guarded store. `stored` is whether `AllocateAddressAt` succeeds, and then
-- it has stored a row with the index. The answer is the index of the address.
unfoldable pub allocate_address : Bool → Ledger → Option ℕ × Ledger
allocate_address stored l = elim (reserve_address_index l.wallet).0 [
  | none ↦ (none, record l { wallet = (reserve_address_index l.wallet).1 })
  | some index ↦
      if stored
      then (
        some index,
        record { wallet = (reserve_address_index l.wallet).1; present = index ∷ l.present },
      )
      else elim (mark_address_index_skipped index (reserve_address_index l.wallet).1) [
        | none ↦ (none, record l { wallet = (reserve_address_index l.wallet).1 })
        | some wallet ↦ (none, record l { wallet = wallet })
      ]
]
