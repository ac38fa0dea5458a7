-- ===== src/Storage/Wallets/Ledger.antt =====
-- The address ledger: each allocated index lies below its wallet's next one.
use mathlib.Core.Path.{subst}
use juno_exchange_gateway.Storage.Wallets.{
  WalletRow, find_wallet, update_wallet, AddressRow, Tables, find_index, insert_address,
  record_address,
}
use juno_exchange_gateway.Prelude.{
  Bool-cases, List, String, [], arith, if◌then◌else◌, inl, inr, some, str_eq, str_eq_iff, ◌∙◌, ◌∷◌,
  ◌≡◌, ◌≤◌, ap, refl, str_eq_refl, sym, ℕ, ◌&&◌, ◌<◌, ◌==◌, ◌⊎◌,
}

-- no wallet is lost, and no wallet's next index falls
pub record Grows (before after : List WalletRow) : Type 0 where
  pub grows :
      (id : String) (w : WalletRow)
      → find_wallet id before ≡ some w
      → (v : WalletRow) × (find_wallet id after ≡ some v)
        × (w.next_address_index ≤ v.next_address_index)

update_wallet-find :
    (id other : String) (f : WalletRow → WalletRow) (ws : List WalletRow) (w : WalletRow)
    → ((x : WalletRow) → (f x).wallet_id ≡ x.wallet_id)
    → find_wallet other ws ≡ some w
    → find_wallet other (update_wallet id f ws) ≡ some (if str_eq other id then f w else w)
unfolding find_wallet update_wallet
update_wallet-find id other f [] w k h = absurd (cc h)
update_wallet-find id other f (x ∷ ws) w k h =
    let ih = update_wallet-find id other f ws w k in
    let kx = k x in
    ground (
      arith,
      ih,
      kx,
      h,
      str_eq_iff x.wallet_id id,
      str_eq_iff x.wallet_id other,
      str_eq_iff other id,
    )

pub update_wallet-Grows :
    (id : String) (f : WalletRow → WalletRow) (ws : List WalletRow)
    → ((x : WalletRow) → (f x).wallet_id ≡ x.wallet_id)
    → ((x : WalletRow)
        → find_wallet id ws ≡ some x
        → x.next_address_index ≤ (f x).next_address_index)
    → Grows ws (update_wallet id f ws)
update_wallet-Grows id f ws k g = record {
  grows = λ other w h. elim (Bool-cases (str_eq other id)) [
    | inl e ↦ (
      f w,
      update_wallet-find id other f ws w k h ∙ ground (arith, e),
      g w (ap (λ x. find_wallet x ws) (sym ((str_eq_iff other id).0 e)) ∙ h),
    )
    | inr e ↦ (w, update_wallet-find id other f ws w k h ∙ ground (arith, e), omega arith)
  ];
}

-- Every allocated index has a wallet whose next index is above it.
pub record IsLedger (t : Tables) : Type 0 where
  pub below :
      (id : String) (index : ℕ) (a : AddressRow)
      → find_index id index t.addresses ≡ some a
      → (w : WalletRow) × (find_wallet id t.wallets ≡ some w) × (index < w.next_address_index)

pub Grows-IsLedger :
    (t after : Tables)
    → IsLedger t
    → Grows t.wallets after.wallets
    → after.addresses ≡ t.addresses
    → IsLedger after
Grows-IsLedger t after l g e = record {
  below = λ id index a h.
      let b = l.below id index a (ap (λ x. find_index id index x) (sym e) ∙ h) in
      let v = g.grows id b.0 b.1 in
      let low = b.2 in let up = v.2 in (v.0, v.1, omega (arith, low, up));
}

-- an update of a wallet's row that does not lower its next index
pub update-IsLedger :
    (t : Tables) (id : String) (f : WalletRow → WalletRow)
    → ((x : WalletRow) → (f x).wallet_id ≡ x.wallet_id)
    → ((x : WalletRow)
        → find_wallet id t.wallets ≡ some x
        → x.next_address_index ≤ (f x).next_address_index)
    → IsLedger t
    → IsLedger (record t { wallets = update_wallet id f t.wallets })
update-IsLedger t id f k g l =
    Grows-IsLedger t (record t { wallets = update_wallet id f t.wallets }) l
      (update_wallet-Grows id f t.wallets k g) refl

find_index-cons :
    (a : AddressRow) (rows : List AddressRow) (id : String) (index : ℕ) (b : AddressRow)
    → find_index id index (a ∷ rows) ≡ some b
    → ((a.wallet_id ≡ id) × (a.diversifier_index ≡ index)) ⊎ (find_index id index rows ≡ some b)
unfolding find_index
find_index-cons a rows id index b h =
    elim (Bool-cases (str_eq a.wallet_id id && (a.diversifier_index == index))) [
      | inl e ↦ inl ((str_eq_iff a.wallet_id id).0 (ground (arith, e)), ground (arith, e))
      | inr e ↦ inr (ground (arith, h, e))
    ]

-- a new address below the next index that its wallet then has
pub record_address-IsLedger :
    (a b : AddressRow) (f : WalletRow → WalletRow) (t after : Tables) (w : WalletRow)
    → ((x : WalletRow) → (f x).wallet_id ≡ x.wallet_id)
    → ((x : WalletRow)
        → find_wallet a.wallet_id t.wallets ≡ some x
        → x.next_address_index ≤ (f x).next_address_index)
    → find_wallet a.wallet_id t.wallets ≡ some w
    → a.diversifier_index < (f w).next_address_index
    → IsLedger t
    → record_address a f t ≡ some (b, after)
    → IsLedger after
unfolding record_address insert_address
record_address-IsLedger a b f t after w k g found low l h =
    let mid : Tables = record {
      wallets = update_wallet a.wallet_id f t.wallets;
      addresses = a ∷ t.addresses;
    } in
    let same : mid ≡ after = ground (arith, h) in
    let kept = update-IsLedger t a.wallet_id f k g l in
    let mine = update_wallet-find a.wallet_id a.wallet_id f t.wallets w k found in
    subst IsLedger same (record {
      below = λ id index c h. elim (find_index-cons a t.addresses id index c h) [
        | inr old ↦ kept.below id index c old
        | inl (i, n) ↦
            subst
              (λ x.
                (v : WalletRow) × (find_wallet x mid.wallets ≡ some v)
                × (index < v.next_address_index))
              i (f w, mine ∙ ground (arith, str_eq_refl a.wallet_id), omega (arith, n, low))
      ];
    })
