-- ===== src/Tests/Addresses.antt =====
-- A wallet with two rows and one skipped index.
use juno_exchange_gateway.Prelude.{ℕ, ◌≡◌, ◌↔◌, ◌<◌, ◌≤◌, refl, true, false, ◌||◌, some, [], ◌∷◌}
use juno_exchange_gateway.Addresses.{
  Ledger, verify_address_coverage, verify_skipped, verify_high_water, allocate_address, coverage,
}
use juno_exchange_gateway.Addresses.Coverage.{has_index, verify_address_coverage_sound}
use juno_exchange_gateway.Addresses.Allocation.{IsVerified, IsComplete, allocate_address-IsComplete}

covers : verify_address_coverage 3 (1 ∷ []) (0 ∷ 2 ∷ []) ≡ true
unfolding verify_address_coverage coverage
covers = refl

verify_address_coverage_sound_example :
    ((has_index 2 (0 ∷ 2 ∷ []) || has_index 2 (1 ∷ [])) ≡ true) ↔ (2 < 3)
verify_address_coverage_sound_example =
    verify_address_coverage_sound 3 (1 ∷ []) (0 ∷ 2 ∷ []) covers 2

abbrev ledger : Ledger
ledger = record {
  wallet = record { next_address_index = 3; skipped_address_indices = 1 ∷ [] };
  present = 0 ∷ 2 ∷ [];
}

verified : IsVerified ledger.wallet
unfolding verify_skipped verify_high_water
verified = (refl, refl)

complete : IsComplete ledger
complete = verify_address_coverage_sound 3 (1 ∷ []) (0 ∷ 2 ∷ []) covers

allocate_address-IsComplete_example :
    IsVerified (allocate_address false ledger).1.wallet
    × IsComplete (allocate_address false ledger).1
    × (3 ≤ (allocate_address false ledger).1.wallet.next_address_index)
    × ((i : ℕ)
        → (allocate_address false ledger).0 ≡ some i
        → ((has_index i ledger.present || has_index i ledger.wallet.skipped_address_indices)
            ≡ false)
          × (has_index i (allocate_address false ledger).1.present ≡ true))
allocate_address-IsComplete_example = allocate_address-IsComplete false ledger verified complete
