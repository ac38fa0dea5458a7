-- ===== src/Gateway/Registry.antt =====
-- internal/api/registry.go: `sync`, `completeThrough` and `backfillOne` over the store's tables. The
-- wallets stand in a list, in the order in which Go visits its map; `backfillOne` sorts them. The
-- scanner's answers are arguments, and its errors are of the kinds `unavailable` and `invalid_response`.
-- Heights are below 2^63 - 1.
pub mod Complete
use juno_exchange_gateway.Storage.Wallets.{Tables, set_backfill_progress}
use juno_exchange_gateway.Gateway.Ready.{
  Completeness, complete_through, upstream_failed, state_failed,
}
use juno_exchange_gateway.Prelude.{
  Bool, min, List, Option, String, [], false, if◌then◌else◌, leb, ltb, mem, none, not, some, str_eq,
  str_lt, true, ℕ, ◌&&◌, ◌+◌, ◌-◌, ◌==◌, ◌||◌, ◌∷◌,
}

-- config.Wallet, with the fingerprint of its UFVK
pub record ConfiguredWallet : Type 0 where
  pub wallet_id : String
  pub ufvk_fingerprint : String
  pub birthday_height : ℕ

-- domain.BackfillStatus, the fields that the registry reads
pub record BackfillStatus : Type 0 where
  pub ufvk_fingerprint : String
  pub birthday_height : ℕ
  pub next_height : ℕ
  pub state : String

-- the scanner on a wallet: `none` is an error, `some none` a wallet that it does not have
pub record ScannerBackfill : Type 0 where
  pub backfill_status : String → Option (Option BackfillStatus)
  pub backfill : String → ℕ → ℕ → Option ℕ
  pub upsert_wallet : String → Bool

-- `sync`: the wallets that are registered then, and whether there was no error
unfoldable pub sync : ScannerBackfill → List ConfiguredWallet → List String × Bool
sync scanner [] = ([], true)
sync scanner (w ∷ wallets) =
    let rest = sync scanner wallets in
    if scanner.upsert_wallet w.wallet_id then (w.wallet_id ∷ rest.0, rest.1) else (rest.0, false)

unfoldable pub all_registered : List String → List ConfiguredWallet → Bool
all_registered registered [] = true
all_registered registered (w ∷ wallets) =
    mem w.wallet_id registered && all_registered registered wallets

-- the scanner's wallet is the configured one
unfoldable pub same_wallet : ConfiguredWallet → BackfillStatus → Bool
same_wallet w s =
    str_eq s.ufvk_fingerprint w.ufvk_fingerprint && (s.birthday_height == w.birthday_height)

-- the loop of `completeThrough`
unfoldable pub complete_from :
    ScannerBackfill → ℕ → List ConfiguredWallet → Tables → Completeness × Tables
complete_from scanner height [] t = (complete_through true, t)
complete_from scanner height (w ∷ wallets) t = elim (scanner.backfill_status w.wallet_id) [
  | none ↦ (upstream_failed, t)
  | some none ↦ (complete_through false, t)
  | some (some s) ↦
      if not (same_wallet w s)
      then (complete_through false, t)
      else elim (set_backfill_progress w.wallet_id s.next_height t) [
        | none ↦ (state_failed, t)
        | some after ↦
            let rest = complete_from scanner height wallets after in
            if not (str_eq s.state "complete") || leb s.next_height height
            then (complete_through false, after)
            else rest
      ]
]

-- `completeThrough`
unfoldable pub complete_through_height :
    ScannerBackfill → List String → List ConfiguredWallet → ℕ → Tables → Completeness × Tables
complete_through_height scanner registered wallets height t =
    if not (all_registered registered wallets)
    then (complete_through false, t)
    else complete_from scanner height wallets t

pub record Candidate : Type 0 where
  pub wallet_id : String
  pub next_height : ℕ
  pub remaining : ℕ

-- the heights that are left, and one at least
unfoldable pub remaining_blocks : ℕ → ℕ → ℕ
remaining_blocks tip next = if ltb (tip + 1 - next) 1 then 1 else tip + 1 - next

-- the loop over the wallets in order: the candidates and the tables, `none` on an error
unfoldable pub candidates :
    ScannerBackfill → ℕ → List ConfiguredWallet → Tables → Option (List Candidate) × Tables
candidates scanner tip [] t = (some [], t)
candidates scanner tip (w ∷ wallets) t = elim (scanner.backfill_status w.wallet_id) [
  | none ↦ (none, t)
  | some none ↦ (none, t)
  | some (some s) ↦
      if not (same_wallet w s)
      then (none, t)
      else elim (set_backfill_progress w.wallet_id s.next_height t) [
        | none ↦ (none, t)
        | some after ↦
            let rest = candidates scanner tip wallets after in
            if str_eq s.state "complete" && ltb tip s.next_height then rest else elim rest.0 [
              | none ↦ (none, rest.1)
              | some cs ↦ (
                some (
                    record {
                      wallet_id = w.wallet_id;
                      next_height = s.next_height;
                      remaining = remaining_blocks tip s.next_height;
                    }
                    ∷ cs),
                rest.1,
              )
            ]
      ]
]

-- the order of `sort.Slice`, of which the first is taken: more is left, or the name is less
unfoldable pub before : Candidate → Candidate → Bool
before a b =
    if not (a.remaining == b.remaining)
    then ltb b.remaining a.remaining
    else str_lt a.wallet_id b.wallet_id

unfoldable pub selected : Candidate → List Candidate → Candidate
selected c [] = c
selected c (d ∷ cs) = if before d c then selected d cs else selected c cs

-- whether a wallet was advanced; `none` is an error
unfoldable pub backfill_selected :
    ScannerBackfill → ℕ → ℕ → Candidate → Tables → Option Bool × Tables
backfill_selected scanner tip batch c t =
    elim (scanner.backfill c.wallet_id tip (min batch c.remaining)) [
      | none ↦ (none, t)
      | some next ↦
          if leb c.next_height tip && leb next c.next_height
          then (none, t)
          else elim (set_backfill_progress c.wallet_id next t) [
            | none ↦ (none, t)
            | some after ↦ (some true, after)
          ]
    ]

-- `backfillOne`, of wallets in the order of their names
unfoldable pub backfill_one :
    ScannerBackfill → List ConfiguredWallet → ℕ → ℕ → Tables → Option Bool × Tables
backfill_one scanner wallets tip batch t =
    if ltb batch 1
    then (none, t)
    else let found = candidates scanner tip wallets t in
      elim found.0 [
        | none ↦ (none, found.1)
        | some [] ↦ (some false, found.1)
        | some (c ∷ cs) ↦ backfill_selected scanner tip batch (selected c cs) found.1
      ]
