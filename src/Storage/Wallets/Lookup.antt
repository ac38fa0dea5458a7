-- ===== src/Storage/Wallets/Lookup.antt =====
-- What is found of the addresses that were allocated.
use juno_exchange_gateway.Storage.Wallets.Ledger.{IsLedger}
use juno_exchange_gateway.Storage.Wallets.Steps.{
  TableStep, start, then_step, TableSteps, by_ensure, by_advance, by_progress, by_allocate,
  by_allocate_at, empty_tables, empty_tables-IsLedger, TableSteps-IsLedger,
}
use juno_exchange_gateway.Storage.Wallets.{
  raised, derived_address, address, AddressRow, Tables, WalletRow, advance_backfill,
  allocate_address_at, ensure_wallet, find_address, find_index, find_wallet, insert_address,
  record_address, set_backfill_progress, allocate_address, update_wallet,
}
use mathlib.Core.Path.{subst}
use juno_exchange_gateway.Prelude.{
  Bool-cases, List, Option, Option-cases, String, ap, arith, false, inl, inr, is_empty, ltb, none,
  some, str_eq, str_eq_iff, str_eq_refl, sym, trim_space, ℕ, ◌&&◌, ◌+◌, ◌<◌, ◌^◌, ◌∙◌, ◌∷◌, ◌≡◌,
}

-- no address that is found is lost or changed
record Keeps (before after : List AddressRow) : Type 0 where
  keeps :
      (id text : String) (a : AddressRow)
      → find_address id text before ≡ some a
      → find_address id text after ≡ some a

insert_address-Keeps :
    (a : AddressRow) (rows after : List AddressRow)
    → insert_address a rows ≡ some after
    → Keeps rows after
unfolding insert_address find_address
insert_address-Keeps a rows after h = record {
  keeps = λ id text b f. elim (Bool-cases (str_eq a.wallet_id id && str_eq a.address text)) [
    | inr e ↦
        let i : a ∷ rows ≡ after = ground (arith, h) in
        subst (λ x. find_address id text x ≡ some b) i (ground (arith, e, f))
    | inl e ↦
        let w = (str_eq_iff a.wallet_id id).0 (ground (arith, e)) in
        let x = (str_eq_iff a.address text).0 (ground (arith, e)) in
        let g : find_address a.wallet_id a.address rows ≡ some b = rw (w, x) f in
        absurd (ground (arith, h, g))
  ];
}

record_address-Keeps :
    (a b : AddressRow) (f : WalletRow → WalletRow) (t after : Tables)
    → record_address a f t ≡ some (b, after)
    → (b ≡ a) × (insert_address a t.addresses ≡ some after.addresses)
unfolding record_address
record_address-Keeps a b f t after h = elim (Option-cases (insert_address a t.addresses)) [
  | inl n ↦ absurd (ground (arith, h, n))
  | inr (rows, e) ↦ (ground (arith, h, e), e ∙ ground (arith, h, e))
]

insert_address-found :
    (a : AddressRow) (rows after : List AddressRow)
    → insert_address a rows ≡ some after
    → find_address a.wallet_id a.address after ≡ some a
unfolding insert_address find_address
insert_address-found a rows after h =
    let i : a ∷ rows ≡ after = ground (arith, h) in
    subst (λ x. find_address a.wallet_id a.address x ≡ some a) i
      (ground (arith, str_eq_refl a.wallet_id, str_eq_refl a.address))

same-Keeps : (t after : Tables) → after.addresses ≡ t.addresses → Keeps t.addresses after.addresses
same-Keeps t after e = record { keeps = λ id text a h. ap (λ x. find_address id text x) e ∙ h }

-- how `AllocateAddress` succeeds
allocate_address-row :
    (id label : String) (now : ℕ) (derive : ℕ → Option String) (t after : Tables) (a : AddressRow)
    → allocate_address id label now derive t ≡ some (a, after)
    → (a.wallet_id ≡ id)
      × (insert_address a t.addresses ≡ some after.addresses)
      × (ltb 4294967295 a.diversifier_index ≡ false)
unfolding allocate_address
allocate_address-row id label now derive t after a h =
    elim (Option-cases (find_wallet id t.wallets)) [
      | inl n ↦ absurd (ground (arith, h, n))
      | inr (w, e) ↦ elim (Option-cases (derived_address (derive w.next_address_index))) [
        | inl n ↦ absurd (ground (arith, h, e, n))
        | inr (text, d) ↦
            let new : AddressRow = record {
              wallet_id = id;
              address = text;
              diversifier_index = w.next_address_index;
              label = label;
              created_at = now;
            } in
            let r =
              record_address-Keeps new a
                (λ x. record x { next_address_index = w.next_address_index + 1 }) t after
                (ground (arith, h, e, d)) in
            let i : new ≡ a = sym r.0 in
            let small : ltb 4294967295 w.next_address_index ≡ false = ground (arith, h, e, d) in
            (
              ap (λ x. x.wallet_id) r.0,
              subst (λ x. insert_address x t.addresses ≡ some after.addresses) i r.1,
              subst (λ x. ltb 4294967295 x.diversifier_index ≡ false) i small,
            )
      ]
    ]

step-Keeps : (t : Tables) {after : Tables} → TableStep t after → Keeps t.addresses after.addresses
unfolding ensure_wallet advance_backfill set_backfill_progress allocate_address_at
step-Keeps t {after} (by_ensure id network fingerprint birthday h) =
    same-Keeps t after (ground (arith, h))
step-Keeps t {after} (by_advance id expected next h) = same-Keeps t after (ground (arith, h))
step-Keeps t {after} (by_progress id next h) = same-Keeps t after (ground (arith, h))
step-Keeps t {after} (by_allocate id label now derive a h) =
    insert_address-Keeps a t.addresses after.addresses
      (allocate_address-row id label now derive t after a h).1
step-Keeps t {after} (by_allocate_at id index label now derive a h) =
    elim (Option-cases (derived_address (derive index))) [
      | inl n ↦ absurd (ground (arith, h, n))
      | inr (text, d) ↦ elim (Option-cases (find_wallet id t.wallets)) [
        | inl n ↦ absurd (ground (arith, h, d, n))
        | inr (w, e) ↦ elim (Option-cases (find_index id index t.addresses)) [
          | inr (b, f) ↦ same-Keeps t after (ground (arith, h, d, e, f))
          | inl f ↦
              let new : AddressRow = record {
                wallet_id = id;
                address = text;
                diversifier_index = index;
                label = label;
                created_at = now;
              } in
              insert_address-Keeps new t.addresses after.addresses
                (record_address-Keeps new a (raised (index + 1)) t after
                  (ground (arith, h, d, e, f))).1
        ]
      ]
    ]

steps-Keeps : (t : Tables) {after : Tables} → TableSteps t after → Keeps t.addresses after.addresses
steps-Keeps t start = record { keeps = λ id text a h. h }
steps-Keeps t (then_step {mid = mid} s u) =
    let k = steps-Keeps t s in
    let m = step-Keeps mid u in
    record { keeps = λ id text a h. m.keeps id text a (k.keeps id text a h) }

-- An address that `AllocateAddress` has handed out is found by `Address` from then on, after any
-- operations on the wallets and addresses, with the wallet, the index and the label that it was
-- handed out with.
pub address-allocate_address :
    (id label : String) (now : ℕ) (derive : ℕ → Option String) (t after : Tables) {later : Tables}
    (a : AddressRow)
    → allocate_address id label now derive t ≡ some (a, after)
    → TableSteps after later
    → address id a.address later ≡ some (some a)
unfolding address
address-allocate_address id label now derive t after {later} a h s =
    let r = allocate_address-row id label now derive t after a h in
    let f = insert_address-found a t.addresses after.addresses r.1 in
    let g = (steps-Keeps after s).keeps a.wallet_id a.address a f in
    let k : find_address id a.address later.addresses ≡ some a =
      ap (λ x. find_address x a.address later.addresses) (sym r.0) ∙ g in
    ground (arith, k, r.2)

allocate_address-ledger :
    (id label raw : String) (now : ℕ) (derive : ℕ → Option String) (t : Tables) (w : WalletRow)
    → IsLedger t
    → find_wallet id t.wallets ≡ some w
    → w.next_address_index < 2 ^ 32
    → derive w.next_address_index ≡ some raw
    → is_empty (trim_space raw) ≡ false
    → find_address id (trim_space raw) t.addresses ≡ none
    → (after : Tables) × (allocate_address id label now derive t
        ≡ some (
          record {
            wallet_id = id;
            address = trim_space raw;
            diversifier_index = w.next_address_index;
            label = label;
            created_at = now;
          },
          after,
        ))
unfolding allocate_address derived_address record_address insert_address
allocate_address-ledger id label raw now derive t w l f bound d nonempty fresh =
    let small : ltb 4294967295 w.next_address_index ≡ false = ground (arith, bound) in
    elim (Option-cases (find_index id w.next_address_index t.addresses)) [
      | inl n ↦
          let new : AddressRow = record {
            wallet_id = id;
            address = trim_space raw;
            diversifier_index = w.next_address_index;
            label = label;
            created_at = now;
          } in
          (
            record {
              wallets =
                  update_wallet id (λ x. record x { next_address_index = w.next_address_index + 1 })
                    t.wallets;
              addresses = new ∷ t.addresses;
            },
            ground (arith, f, small, d, nonempty, fresh, n),
          )
      | inr (a, n) ↦
          let b = l.below id w.next_address_index a n in
          let same : w ≡ b.0 = cc (f, b.1) in
          let low : w.next_address_index < w.next_address_index =
            subst (λ x. w.next_address_index < x.next_address_index) (sym same) b.2 in
          absurd (omega (arith, low))
    ]

-- An allocation is never in the way of another one: after any operations on an empty database, for a
-- wallet with a next index in range, and a derived address that is not blank and not the wallet's
-- yet, `AllocateAddress` succeeds, with that address and that index.
pub allocate_address_total :
    (id label raw : String) (now : ℕ) (derive : ℕ → Option String) (t : Tables) (w : WalletRow)
    → TableSteps empty_tables t
    → find_wallet id t.wallets ≡ some w
    → w.next_address_index < 2 ^ 32
    → derive w.next_address_index ≡ some raw
    → is_empty (trim_space raw) ≡ false
    → find_address id (trim_space raw) t.addresses ≡ none
    → (after : Tables) × (allocate_address id label now derive t
        ≡ some (
          record {
            wallet_id = id;
            address = trim_space raw;
            diversifier_index = w.next_address_index;
            label = label;
            created_at = now;
          },
          after,
        ))
allocate_address_total id label raw now derive t w s f bound d nonempty fresh =
    allocate_address-ledger id label raw now derive t w
      (TableSteps-IsLedger empty_tables empty_tables-IsLedger s) f bound d nonempty fresh
