-- ===== src/Storage/Wallets.antt =====
-- internal/storage/sqlite/sqlite.go: the tables `wallets` and `addresses`. An UFVK fingerprint that is NULL is
-- the empty text. The constraints are the primary keys, UNIQUE(wallet_id, address), the index on the
-- network and the fingerprint, and the reference of an address to its wallet. A derivation is an
-- argument. Heights and indices are at least 0 in the model.
pub mod Ledger
pub mod Steps
pub mod Lookup
use juno_exchange_gateway.Domain.Hex.{codes, is_lower_hex64}
use juno_exchange_gateway.Prelude.{
  Bool, List, Option, String, [], false, if◌then◌else◌, is_empty, leb, ltb, none, not, some, str_eq,
  trim_space, true, ℕ, ◌&&◌, ◌+◌, ◌==◌, ◌||◌, ◌∷◌,
}

pub record WalletRow : Type 0 where
  pub wallet_id : String
  pub network : String
  pub ufvk_fingerprint : String
  pub birthday_height : ℕ
  pub next_backfill_height : ℕ
  pub next_address_index : ℕ

-- storage.Address
pub record AddressRow : Type 0 where
  pub wallet_id : String
  pub address : String
  pub diversifier_index : ℕ
  pub label : String
  pub created_at : ℕ

pub record Tables : Type 0 where
  pub wallets : List WalletRow
  pub addresses : List AddressRow

-- `SELECT … FROM wallets WHERE wallet_id=?`, which is `Wallet`
unfoldable pub find_wallet : String → List WalletRow → Option WalletRow
find_wallet id [] = none
find_wallet id (w ∷ ws) = if str_eq w.wallet_id id then some w else find_wallet id ws

-- `UPDATE wallets SET … WHERE wallet_id=?`
unfoldable pub update_wallet : String → (WalletRow → WalletRow) → List WalletRow → List WalletRow
update_wallet id f [] = []
update_wallet id f (w ∷ ws) =
    let rest = update_wallet id f ws in if str_eq w.wallet_id id then f w ∷ rest else w ∷ rest

-- a row of another wallet with the same fingerprint on the same network
unfoldable pub fingerprint_taken : String → String → String → List WalletRow → Bool
fingerprint_taken id network fingerprint [] = false
fingerprint_taken id network fingerprint (w ∷ ws) =
    not (str_eq w.wallet_id id) && str_eq w.network network && str_eq w.ufvk_fingerprint fingerprint
    || fingerprint_taken id network fingerprint ws

-- `INSERT INTO wallets … ON CONFLICT(wallet_id) DO NOTHING`
unfoldable pub insert_wallet :
    String → String → String → ℕ → List WalletRow → Option (List WalletRow)
insert_wallet id network fingerprint birthday ws = elim (find_wallet id ws) [
  | some w ↦ some ws
  | none ↦
      if fingerprint_taken id network fingerprint ws
      then none
      else some (
          record {
            wallet_id = id;
            network = network;
            ufvk_fingerprint = fingerprint;
            birthday_height = birthday;
            next_backfill_height = birthday;
            next_address_index = 0;
          }
          ∷ ws)
]

-- what `EnsureWallet` makes of the row
unfoldable pub bound_row : String → ℕ → WalletRow → WalletRow
bound_row fingerprint birthday w =
    let bound : WalletRow =
      if is_empty w.ufvk_fingerprint then record w { ufvk_fingerprint = fingerprint } else w in
    if ltb birthday w.birthday_height
    then record bound { birthday_height = birthday; next_backfill_height = birthday }
    else bound

-- the tests of `EnsureWallet` on the row
unfoldable pub accepts_wallet : String → String → ℕ → WalletRow → Bool
accepts_wallet network fingerprint birthday w =
    str_eq w.network network
    && (is_empty w.ufvk_fingerprint || str_eq w.ufvk_fingerprint fingerprint)
    && leb birthday w.birthday_height

-- `EnsureWallet`
unfoldable pub ensure_wallet : String → String → String → ℕ → Tables → Option Tables
ensure_wallet id network fingerprint birthday t =
    if not (is_lower_hex64 (codes fingerprint))
    then none
    else elim (insert_wallet id network fingerprint birthday t.wallets) [
      | none ↦ none
      | some ws ↦ elim (find_wallet id ws) [
        | none ↦ none
        | some w ↦
            if not (accepts_wallet network fingerprint birthday w)
            then none
            else if is_empty w.ufvk_fingerprint && fingerprint_taken id network fingerprint ws
            then none
            else some (record t { wallets = update_wallet id (bound_row fingerprint birthday) ws })
      ]
    ]

-- `AdvanceBackfill`
unfoldable pub advance_backfill : String → ℕ → ℕ → Tables → Option Tables
advance_backfill id expected next t =
    if leb next expected then none else elim (find_wallet id t.wallets) [
      | none ↦ none
      | some w ↦
          if w.next_backfill_height == expected
          then some (record t {
            wallets = update_wallet id (λ x. record x { next_backfill_height = next }) t.wallets;
          })
          else none
    ]

-- `SetBackfillProgress`
unfoldable pub set_backfill_progress : String → ℕ → Tables → Option Tables
set_backfill_progress id next t = elim (find_wallet id t.wallets) [
  | none ↦ none
  | some w ↦
      if ltb next w.birthday_height
      then none
      else some (record t {
        wallets = update_wallet id (λ x. record x { next_backfill_height = next }) t.wallets;
      })
]

-- `SELECT … FROM addresses WHERE wallet_id=? AND address=?`
unfoldable pub find_address : String → String → List AddressRow → Option AddressRow
find_address id address [] = none
find_address id address (a ∷ rows) =
    if str_eq a.wallet_id id && str_eq a.address address
    then some a
    else find_address id address rows

-- `SELECT … FROM addresses WHERE wallet_id=? AND diversifier_index=?`
unfoldable pub find_index : String → ℕ → List AddressRow → Option AddressRow
find_index id index [] = none
find_index id index (a ∷ rows) =
    if str_eq a.wallet_id id && (a.diversifier_index == index)
    then some a
    else find_index id index rows

abbrev pub is_missing {ℓ} : {A : Type ℓ} → Option A → Bool
is_missing none = true
is_missing (some a) = false

-- `INSERT INTO addresses`, against both constraints
unfoldable pub insert_address : AddressRow → List AddressRow → Option (List AddressRow)
insert_address a rows =
    if is_missing (find_address a.wallet_id a.address rows)
      && is_missing (find_index a.wallet_id a.diversifier_index rows)
    then some (a ∷ rows)
    else none

-- a derived address, trimmed and not empty
unfoldable pub derived_address : Option String → Option String
derived_address none = none
derived_address (some raw) = if is_empty (trim_space raw) then none else some (trim_space raw)

-- the new row, and the update of the wallet
unfoldable pub record_address :
    AddressRow → (WalletRow → WalletRow) → Tables → Option (AddressRow × Tables)
record_address a f t = elim (insert_address a t.addresses) [
  | none ↦ none
  | some rows ↦
      some (a, record { wallets = update_wallet a.wallet_id f t.wallets; addresses = rows })
]

unfoldable pub raised : ℕ → WalletRow → WalletRow
raised next w = if ltb w.next_address_index next then record w { next_address_index = next } else w

-- `AllocateAddress`
unfoldable pub allocate_address :
    String → String → ℕ → (ℕ → Option String) → Tables → Option (AddressRow × Tables)
allocate_address id label now derive t = elim (find_wallet id t.wallets) [
  | none ↦ none
  | some w ↦
      if ltb 4294967295 w.next_address_index
      then none
      else elim (derived_address (derive w.next_address_index)) [
        | none ↦ none
        | some address ↦
            record_address
              (record {
                wallet_id = id;
                address = address;
                diversifier_index = w.next_address_index;
                label = label;
                created_at = now;
              })
              (λ x. record x { next_address_index = w.next_address_index + 1 }) t
      ]
]

-- `AllocateAddressAt`
unfoldable pub allocate_address_at :
    String → ℕ → String → ℕ → (ℕ → Option String) → Tables → Option (AddressRow × Tables)
allocate_address_at id index label now derive t = elim (derived_address (derive index)) [
  | none ↦ none
  | some address ↦ elim (find_wallet id t.wallets) [
    | none ↦ none
    | some w ↦ elim (find_index id index t.addresses) [
      | some a ↦
          if str_eq a.address address
          then some (a, record t { wallets = update_wallet id (raised (index + 1)) t.wallets })
          else none
      | none ↦
          record_address
            (record {
              wallet_id = id;
              address = address;
              diversifier_index = index;
              label = label;
              created_at = now;
            })
            (raised (index + 1)) t
    ]
  ]
]

-- `Address`: an error, or the row where there is one
unfoldable pub address : String → String → Tables → Option (Option AddressRow)
address id text t = elim (find_address id text t.addresses) [
  | none ↦ some none
  | some a ↦ if ltb 4294967295 a.diversifier_index then none else some (some a)
]
