-- ===== src/Addresses/Allocation.antt =====
-- Allocation keeps the ledger complete, and never hands out an index twice.
use juno_exchange_gateway.Prelude.{
  ℕ, ◌+◌, ◌^◌, ◌≤◌, ◌<◌, ◌≡◌, ◌↔◌, refl, Bool, true, false, ◌||◌, some, List, [], ◌∷◌, arith, ltb,
  leb, ◌==◌, Bool-cases, inl, inr,
}
use juno_exchange_gateway.Addresses.{
  WalletState, Ledger, ordered_after, verify_skipped, verify_high_water, reserve_address_index,
  insert_index, mark_address_index_skipped, allocate_address,
}
use juno_exchange_gateway.Addresses.Coverage.{has_index}

-- What is checked of a wallet whenever the manifest is read.
abbrev pub IsVerified : WalletState → Type 0
IsVerified w = (verify_skipped w ≡ true) × (verify_high_water w ≡ true)

-- Every index below the high-water mark has a row or is skipped, and no other one.
abbrev pub IsComplete : Ledger → Type 0
IsComplete l =
    (i : ℕ)
    → ((has_index i l.present || has_index i l.wallet.skipped_address_indices) ≡ true)
      ↔ (i < l.wallet.next_address_index)

has_index-insert_index :
    (i j : ℕ) (js : List ℕ) → has_index i (insert_index j js) ≡ (i == j || has_index i js)
unfolding insert_index
has_index-insert_index i j [] = refl
has_index-insert_index i j (k ∷ js) = ground (arith, has_index-insert_index i j js)

insert_index-ordered :
    (next previous i : ℕ) (js : List ℕ)
    → i < next
    → previous < i
    → ordered_after next previous js ≡ true
    → ordered_after next previous (insert_index i js) ≡ true
unfolding insert_index ordered_after
insert_index-ordered next previous i [] a b h = ground arith
insert_index-ordered next previous i (j ∷ js) a b h = elim (Bool-cases (ltb j i)) [
  | inl e ↦
      let ih = insert_index-ordered next j i js a (ground arith) (ground arith) in
      ground (arith, ih)
  | inr e ↦ ground arith
]

ordered-more :
    (next previous : ℕ) (js : List ℕ)
    → ordered_after next previous js ≡ true
    → ordered_after (next + 1) previous js ≡ true
unfolding ordered_after
ordered-more next previous [] h = refl
ordered-more next previous (j ∷ js) h = ground (arith, ordered-more next j js)

insert_index-verified :
    (next i : ℕ) (js : List ℕ)
    → i < next
    → verify_skipped (record { next_address_index = next; skipped_address_indices = js }) ≡ true
    → verify_skipped
        (record { next_address_index = next; skipped_address_indices = insert_index i js })
      ≡ true
unfolding verify_skipped insert_index ordered_after
insert_index-verified next i [] a h = ground arith
insert_index-verified next i (j ∷ js) a h = elim (Bool-cases (ltb j i)) [
  | inl e ↦
      let o = insert_index-ordered next j i js a (ground arith) (ground arith) in ground (arith, o)
  | inr e ↦ ground arith
]

reserved-verified :
    (next : ℕ) (js : List ℕ)
    → verify_skipped (record { next_address_index = next; skipped_address_indices = js }) ≡ true
    → verify_skipped (record { next_address_index = next + 1; skipped_address_indices = js }) ≡ true
unfolding verify_skipped
reserved-verified next [] h = refl
reserved-verified next (j ∷ js) h = ground (arith, ordered-more next j js)

-- An allocation of a complete ledger, whether or not its row could be stored, leaves it complete and
-- its manifest readable. The index that it answers was not in use and has a row now; and the
-- high-water mark does not fall.
pub allocate_address-IsComplete :
    (stored : Bool) (l : Ledger)
    → IsVerified l.wallet
    → IsComplete l
    → IsVerified (allocate_address stored l).1.wallet
      × IsComplete (allocate_address stored l).1
      × (l.wallet.next_address_index ≤ (allocate_address stored l).1.wallet.next_address_index)
      × ((i : ℕ)
          → (allocate_address stored l).0 ≡ some i
          → ((has_index i l.present || has_index i l.wallet.skipped_address_indices) ≡ false)
            × (has_index i (allocate_address stored l).1.present ≡ true))
unfolding allocate_address reserve_address_index mark_address_index_skipped verify_high_water
allocate_address-IsComplete stored l v c =
    let next = l.wallet.next_address_index in
    let skipped = l.wallet.skipped_address_indices in
    let r = reserved-verified next skipped v.0 in
    let m = insert_index-verified (next + 1) next skipped (omega arith) r in
    elim (Bool-cases (leb (2 ^ 32) next)) [
      | inl e ↦ (
        ground arith,
        λ i. let x = c i in (λ k. ground (arith, x), λ k. ground (arith, x)),
        ground arith,
        λ i h. absurd (ground arith),
      )
      | inr e ↦ (
        ground (arith, r, m),
        λ i.
            let x = c i in
            let y = has_index-insert_index i next skipped in
            (λ k. ground (arith, x, y), λ k. ground (arith, x, y)),
        ground arith,
        λ i h. let x = c i in ground (arith, x),
      )
    ]
