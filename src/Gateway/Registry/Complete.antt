-- ===== src/Gateway/Registry/Complete.antt =====
-- What it means that the wallets are complete, and what the registry does to the tables.
use juno_exchange_gateway.Gateway.Ready.Attested.{IsAttested, check_ready_sound}
use juno_exchange_gateway.Gateway.Registry.{
  ConfiguredWallet, ScannerBackfill, BackfillStatus, complete_from, same_wallet,
  complete_through_height,
}
use juno_exchange_gateway.Storage.Wallets.{Tables, set_backfill_progress}
use juno_exchange_gateway.Gateway.Ready.{
  complete_through, Readiness, Upstream, ready_for, check_ready, ReadyConfig,
}
use juno_exchange_gateway.Prelude.{
  List, Option-cases, [], ap, arith, inl, inr, some, str_eq, str_eq_iff, true, ℕ, ◌<◌, ◌∙◌, ◌∷◌,
  ◌≡◌, String, sym,
}

-- The scanner has the configured wallet, and has scanned it beyond a height.
pub record IsScanned (scanner : ScannerBackfill) (height : ℕ) (w : ConfiguredWallet) : Type 0 where
  pub status : BackfillStatus
  pub status_eq : scanner.backfill_status w.wallet_id ≡ some (some status)
  pub fingerprint_eq : status.ufvk_fingerprint ≡ w.ufvk_fingerprint
  pub birthday_eq : status.birthday_height ≡ w.birthday_height
  pub state_eq : status.state ≡ "complete"
  pub beyond : height < status.next_height

pub data AllScanned (scanner : ScannerBackfill) (height : ℕ) : List ConfiguredWallet → Type 0 where
  none_left : AllScanned scanner height []
  one_more :
      {w : ConfiguredWallet} {wallets : List ConfiguredWallet}
      → IsScanned scanner height w
      → AllScanned scanner height wallets
      → AllScanned scanner height (w ∷ wallets)

-- When the registry finds the wallets complete through a height, then the scanner has each configured
-- wallet, with its fingerprint and birthday, and has scanned it beyond that height.
pub complete_from-AllScanned :
    (scanner : ScannerBackfill) (height : ℕ) (wallets : List ConfiguredWallet) (t : Tables)
    → (complete_from scanner height wallets t).0 ≡ complete_through true
    → AllScanned scanner height wallets
unfolding complete_from same_wallet
complete_from-AllScanned scanner height [] t h = none_left
complete_from-AllScanned scanner height (w ∷ wallets) t h =
    elim (Option-cases (scanner.backfill_status w.wallet_id)) [
      | inl n ↦ absurd (ground (arith, h, n))
      | inr (o, e) ↦ elim (Option-cases o) [
        | inl n ↦ absurd (ground (arith, h, e, n))
        | inr (s, f) ↦ elim (Option-cases (set_backfill_progress w.wallet_id s.next_height t)) [
          | inl n ↦ absurd (ground (arith, h, e, f, n))
          | inr (after, p) ↦
              let rest : (complete_from scanner height wallets after).0 ≡ complete_through true =
                ground (arith, h, e, f, p) in
              let fingerprint : str_eq s.ufvk_fingerprint w.ufvk_fingerprint ≡ true =
                ground (arith, h, e, f, p) in
              let done : str_eq s.state "complete" ≡ true = ground (arith, h, e, f, p) in
              one_more
                (record {
                  status = s;
                  status_eq = e ∙ ap some f;
                  fingerprint_eq = (str_eq_iff s.ufvk_fingerprint w.ufvk_fingerprint).0 fingerprint;
                  birthday_eq = ground (arith, h, e, f, p);
                  state_eq = (str_eq_iff s.state "complete").0 done;
                  beyond = ground (arith, h, e, f, p);
                })
                (complete_from-AllScanned scanner height wallets after rest)
        ]
      ]
    ]

complete_through_height_sound :
    (scanner : ScannerBackfill) (registered : List String) (wallets : List ConfiguredWallet)
    (height : ℕ) (t : Tables)
    → (complete_through_height scanner registered wallets height t).0 ≡ complete_through true
    → AllScanned scanner height wallets
unfolding complete_through_height
complete_through_height_sound scanner registered wallets height t h =
    complete_from-AllScanned scanner height wallets t (ground (arith, h))

-- When the gateway, with its registry, finds itself ready, then the node's tip is of the configured
-- network and not in its initial download, the scanner is of the same network and confirmation
-- policy, the block that it has scanned to is on the node's chain, its lag is the distance to the
-- node's tip and within the configured bound, it knows the pending spends and, where that is
-- required, the whole history, and it has scanned each configured wallet, of the same fingerprint
-- and birthday, beyond that block.
pub check_ready-AllScanned :
    (cfg : ReadyConfig) (up : Upstream) (scanner : ScannerBackfill) (registered : List String)
    (wallets : List ConfiguredWallet) (t : Tables) (r : Readiness)
    → up.completeness ≡ (λ n. (complete_through_height scanner registered wallets n t).0)
    → check_ready cfg up ≡ ready_for r
    → IsAttested cfg up r
      × ((n : ℕ) × (r.scanner.scanned_height ≡ some n) × AllScanned scanner n wallets)
check_ready-AllScanned cfg up scanner registered wallets t r c h =
    let a = check_ready_sound cfg up r h in
    let k = ap (λ f. f a.scanned) (sym c) ∙ a.wallets_complete in
    (
      a,
      (
        a.scanned,
        a.scanned_eq,
        complete_through_height_sound scanner registered wallets a.scanned t k,
      ),
    )
