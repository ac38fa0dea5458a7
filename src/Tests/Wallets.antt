-- ===== src/Tests/Wallets.antt =====
-- Wallets and their addresses.
use juno_exchange_gateway.Domain.Hex.{is_lower_hex, is_lower_hex64}
use juno_exchange_gateway.Storage.Wallets.Lookup.{address-allocate_address, allocate_address_total}
use juno_exchange_gateway.Storage.Wallets.{
  address, find_index, allocate_address, AddressRow, Tables, WalletRow, derived_address,
  find_address, find_wallet, insert_address, record_address, update_wallet, accepts_wallet,
  advance_backfill, bound_row, ensure_wallet, fingerprint_taken, insert_wallet,
}
use juno_exchange_gateway.Storage.Wallets.Steps.{
  start, then_step, TableSteps, by_ensure, by_advance, empty_tables,
}
use juno_exchange_gateway.Prelude.{
  Option, String, [], arith, refl, some, str_eq, trim_space, ℕ, ◌∷◌, ◌≡◌,
}

abbrev installation : String
installation = "dddddddddddddddddddddddddddddddddddddddddddddddddddddddddddddddd"

abbrev hot_row : WalletRow
hot_row = record {
  wallet_id = "hot";
  network = "regtest";
  ufvk_fingerprint = installation;
  birthday_height = 10;
  next_backfill_height = 10;
  next_address_index = 0;
}

abbrev hot_tables : Tables
hot_tables = record { wallets = hot_row ∷ []; addresses = [] }

abbrev hot_address : AddressRow
hot_address = record {
  wallet_id = "hot";
  address = "jregtest1abc";
  diversifier_index = 0;
  label = "first";
  created_at = 5;
}

abbrev allocated_tables : Tables
allocated_tables = record {
  wallets = record hot_row { next_address_index = 1 } ∷ [];
  addresses = hot_address ∷ [];
}

abbrev derive : ℕ → Option String
derive n = some "jregtest1abc"

ensured : TableSteps empty_tables hot_tables
unfolding ensure_wallet is_lower_hex64 is_lower_hex insert_wallet find_wallet fingerprint_taken
    str_eq accepts_wallet update_wallet bound_row
ensured = then_step start (by_ensure "hot" "regtest" installation 10 refl)

advanced : TableSteps allocated_tables (record allocated_tables {
  wallets = record hot_row { next_address_index = 1; next_backfill_height = 12 } ∷ [];
})
unfolding advance_backfill find_wallet str_eq update_wallet
advanced = then_step start (by_advance "hot" 10 12 refl)

address-allocate_address_example :
    address "hot" "jregtest1abc" (record allocated_tables {
      wallets = record hot_row { next_address_index = 1; next_backfill_height = 12 } ∷ [];
    })
    ≡ some (some hot_address)
unfolding allocate_address find_wallet str_eq derived_address trim_space record_address
    insert_address find_address find_index update_wallet
address-allocate_address_example =
    address-allocate_address "hot" "first" 5 derive hot_tables allocated_tables hot_address refl
      advanced

allocate_address_total_example :
    (after : Tables) × (allocate_address "hot" "first" 5 derive hot_tables
      ≡ some (
        record {
          wallet_id = "hot";
          address = trim_space "jregtest1abc";
          diversifier_index = 0;
          label = "first";
          created_at = 5;
        },
        after,
      ))
unfolding find_wallet str_eq trim_space find_address
allocate_address_total_example =
    allocate_address_total "hot" "first" "jregtest1abc" 5 derive hot_tables hot_row ensured refl
      (omega arith) refl refl refl
