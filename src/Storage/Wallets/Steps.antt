-- ===== src/Storage/Wallets/Steps.antt =====
-- Sequences of operations on the wallets and their addresses.
use juno_exchange_gateway.Storage.Wallets.Ledger.{
  Grows, Grows-IsLedger, IsLedger, update-IsLedger, record_address-IsLedger,
}
use juno_exchange_gateway.Storage.Wallets.{
  raised, derived_address, AddressRow, Tables, WalletRow, advance_backfill, allocate_address_at,
  bound_row, ensure_wallet, find_wallet, insert_wallet, set_backfill_progress, update_wallet,
  allocate_address, find_index,
}
use mathlib.Core.Path.{subst}
use juno_exchange_gateway.Prelude.{
  List, Option, Option-cases, String, arith, inl, inr, refl, some, str_eq_iff, ℕ, ◌∷◌, ◌≡◌, ◌≤◌,
  ◌+◌, [],
}

pub data TableStep (t : Tables) : Tables → Type 0 where
  by_ensure :
      {after : Tables} (id network fingerprint : String) (birthday : ℕ)
      → ensure_wallet id network fingerprint birthday t ≡ some after
      → TableStep t after
  by_advance :
      {after : Tables} (id : String) (expected next : ℕ)
      → advance_backfill id expected next t ≡ some after
      → TableStep t after
  by_progress :
      {after : Tables} (id : String) (next : ℕ)
      → set_backfill_progress id next t ≡ some after
      → TableStep t after
  by_allocate :
      {after : Tables} (id label : String) (now : ℕ) (derive : ℕ → Option String) (a : AddressRow)
      → allocate_address id label now derive t ≡ some (a, after)
      → TableStep t after
  by_allocate_at :
      {after : Tables} (id : String) (index : ℕ) (label : String) (now : ℕ)
      (derive : ℕ → Option String) (a : AddressRow)
      → allocate_address_at id index label now derive t ≡ some (a, after)
      → TableStep t after

pub data TableSteps (t : Tables) : Tables → Type 0 where
  start : TableSteps t t
  then_step : {mid after : Tables} → TableSteps t mid → TableStep mid after → TableSteps t after

insert_wallet-Grows :
    (id network fingerprint : String) (birthday : ℕ) (ws after : List WalletRow)
    → insert_wallet id network fingerprint birthday ws ≡ some after
    → Grows ws after
unfolding insert_wallet find_wallet
insert_wallet-Grows id network fingerprint birthday ws after h =
    elim (Option-cases (find_wallet id ws)) [
      | inr (w, e) ↦
          let i : ws ≡ after = ground (arith, h, e) in
          subst (Grows ws) i (record { grows = λ x w g. (w, g, omega arith) })
      | inl e ↦
          let new : WalletRow = record {
            wallet_id = id;
            network = network;
            ufvk_fingerprint = fingerprint;
            birthday_height = birthday;
            next_backfill_height = birthday;
            next_address_index = 0;
          } in
          let i : new ∷ ws ≡ after = ground (arith, h, e) in
          subst (Grows ws) i
            (record { grows = λ x w g. (w, ground (arith, g, e, str_eq_iff id x), omega arith) })
    ]

bound_row-next :
    (fingerprint : String) (birthday : ℕ) (w : WalletRow)
    → ((bound_row fingerprint birthday w).wallet_id ≡ w.wallet_id)
      × ((bound_row fingerprint birthday w).next_address_index ≡ w.next_address_index)
unfolding bound_row
bound_row-next fingerprint birthday w = (ground arith, ground arith)

raised-next :
    (n : ℕ) (w : WalletRow)
    → ((raised n w).wallet_id ≡ w.wallet_id)
      × (w.next_address_index ≤ (raised n w).next_address_index)
      × (n ≤ (raised n w).next_address_index)
unfolding raised
raised-next n w = (ground arith, ground arith, ground arith)

ensure-IsLedger :
    (id network fingerprint : String) (birthday : ℕ) (t after : Tables)
    → IsLedger t
    → ensure_wallet id network fingerprint birthday t ≡ some after
    → IsLedger after
unfolding ensure_wallet
ensure-IsLedger id network fingerprint birthday t after l h =
    elim (Option-cases (insert_wallet id network fingerprint birthday t.wallets)) [
      | inl n ↦ absurd (ground (arith, h, n))
      | inr (ws, e) ↦ elim (Option-cases (find_wallet id ws)) [
        | inl n ↦ absurd (ground (arith, h, e, n))
        | inr (w, f) ↦
            let mid : Tables = record t { wallets = ws } in
            let i : record t { wallets = update_wallet id (bound_row fingerprint birthday) ws }
                ≡ after =
              ground (arith, h, e, f) in
            subst IsLedger i (
              update-IsLedger mid id (bound_row fingerprint birthday)
                (λ x. (bound_row-next fingerprint birthday x).0)
                (λ x q. let k = (bound_row-next fingerprint birthday x).1 in omega (arith, k))
                (Grows-IsLedger t mid l
                  (insert_wallet-Grows id network fingerprint birthday t.wallets ws e) refl))
      ]
    ]

backfill-IsLedger :
    (t after : Tables) (id : String) (next : ℕ)
    → IsLedger t
    → record t {
      wallets = update_wallet id (λ x. record x { next_backfill_height = next }) t.wallets;
    }
      ≡ after
    → IsLedger after
backfill-IsLedger t after id next l i = subst IsLedger i (
    update-IsLedger t id (λ x. record x { next_backfill_height = next }) (λ x. refl)
      (λ x q. omega arith) l)

allocate-IsLedger :
    (id label : String) (now : ℕ) (derive : ℕ → Option String) (t after : Tables) (a : AddressRow)
    → IsLedger t
    → allocate_address id label now derive t ≡ some (a, after)
    → IsLedger after
unfolding allocate_address
allocate-IsLedger id label now derive t after a l h =
    elim (Option-cases (find_wallet id t.wallets)) [
      | inl n ↦ absurd (ground (arith, h, n))
      | inr (w, e) ↦ elim (Option-cases (derived_address (derive w.next_address_index))) [
        | inl n ↦ absurd (ground (arith, h, e, n))
        | inr (text, d) ↦
            let new : AddressRow = record {
              wallet_id = id;
              address = text;
              diversifier_index = w.next_address_index;
              label = label;
              created_at = now;
            } in
            record_address-IsLedger new a
              (λ x. record x { next_address_index = w.next_address_index + 1 }) t after w
              (λ x. refl)
              (λ x q.
                let same : w ≡ x = cc (e, q) in
                subst (λ y. y.next_address_index ≤ w.next_address_index + 1) same (omega arith))
              e (omega arith) l (ground (arith, h, e, d))
      ]
    ]

allocate_at-IsLedger :
    (id : String) (index : ℕ) (label : String) (now : ℕ) (derive : ℕ → Option String)
    (t after : Tables) (a : AddressRow)
    → IsLedger t
    → allocate_address_at id index label now derive t ≡ some (a, after)
    → IsLedger after
unfolding allocate_address_at
allocate_at-IsLedger id index label now derive t after a l h =
    elim (Option-cases (derived_address (derive index))) [
      | inl n ↦ absurd (ground (arith, h, n))
      | inr (text, d) ↦ elim (Option-cases (find_wallet id t.wallets)) [
        | inl n ↦ absurd (ground (arith, h, d, n))
        | inr (w, e) ↦
            let k = λ (x : WalletRow). (raised-next (index + 1) x).0 in
            let up = λ (x : WalletRow) (q : find_wallet id t.wallets ≡ some x).
              (raised-next (index + 1) x).1 in
            elim (Option-cases (find_index id index t.addresses)) [
              | inr (b, f) ↦
                  let i : record t { wallets = update_wallet id (raised (index + 1)) t.wallets }
                      ≡ after =
                    ground (arith, h, d, e, f) in
                  subst IsLedger i (update-IsLedger t id (raised (index + 1)) k up l)
              | inl f ↦
                  let new : AddressRow = record {
                    wallet_id = id;
                    address = text;
                    diversifier_index = index;
                    label = label;
                    created_at = now;
                  } in
                  let high = (raised-next (index + 1) w).2 in
                  record_address-IsLedger new a (raised (index + 1)) t after w k up e
                    (omega (arith, high)) l (ground (arith, h, d, e, f))
            ]
      ]
    ]

-- Every operation keeps the ledger: each allocated index has a wallet whose next index is above it.
pub TableSteps-IsLedger :
    (t : Tables) {after : Tables} → IsLedger t → TableSteps t after → IsLedger after
unfolding advance_backfill set_backfill_progress
TableSteps-IsLedger t l start = l
TableSteps-IsLedger t l
      (then_step {mid = mid} {after = after} s (by_ensure id network fingerprint birthday h)) =
    ensure-IsLedger id network fingerprint birthday mid after (TableSteps-IsLedger t l s) h
TableSteps-IsLedger t l (then_step {mid = mid} {after = after} s (by_advance id expected next h)) =
    backfill-IsLedger mid after id next (TableSteps-IsLedger t l s) (ground (arith, h))
TableSteps-IsLedger t l (then_step {mid = mid} {after = after} s (by_progress id next h)) =
    backfill-IsLedger mid after id next (TableSteps-IsLedger t l s) (ground (arith, h))
TableSteps-IsLedger t l
      (then_step {mid = mid} {after = after} s (by_allocate id label now derive a h)) =
    allocate-IsLedger id label now derive mid after a (TableSteps-IsLedger t l s) h
TableSteps-IsLedger t l
      (then_step {mid = mid} {after = after} s (by_allocate_at id index label now derive a h)) =
    allocate_at-IsLedger id index label now derive mid after a (TableSteps-IsLedger t l s) h

abbrev pub empty_tables : Tables
empty_tables = record { wallets = []; addresses = [] }

pub empty_tables-IsLedger : IsLedger empty_tables
unfolding find_index
empty_tables-IsLedger = record { below = λ id index a h. absurd (cc h) }
