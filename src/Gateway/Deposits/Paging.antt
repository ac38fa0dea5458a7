-- ===== src/Gateway/Deposits/Paging.antt =====
-- Paging through the deposits.
use juno_exchange_gateway.Gateway.Deposits.{
  scanned, listed, skipped, broken, Deposit, DepositQuery, Scan, outcome_of, scan_cons, scan_events,
  Outcome, invalid_event,
}
use mathlib.Core.Path.{subst}
use juno_exchange_gateway.Gateway.Effects.{ScannerEvent}
use juno_exchange_gateway.Prelude.{
  Bool-cases, List, [], ap, arith, inl, inr, leb, length, refl, sym, ℕ, ◌++◌, ◌-◌, ◌<◌, ◌∙◌, ◌∷◌,
  ◌≡◌, ◌≤◌, ◌⊎◌,
}

-- all the deposits of some events, apart from any limit: those that are bound and wanted
unfoldable pub deposits_of : DepositQuery → List ScannerEvent → List Deposit
deposits_of q [] = []
deposits_of q (e ∷ events) =
    let rest = deposits_of q events in
    elim (outcome_of q e) [ invalid_event ↦ rest | skipped ↦ rest | listed d ↦ d ∷ rest ]

-- the numbers of the events grow from above `low` to `high`
pub data Ascends : ℕ → List ScannerEvent → ℕ → Type 0 where
  stays : {low : ℕ} → Ascends low [] low
  climbs :
      {low : ℕ} {e : ScannerEvent} {events : List ScannerEvent} {high : ℕ}
      → low < e.id
      → Ascends e.id events high
      → Ascends low (e ∷ events) high

-- The events are those that were read and those that were not. What is listed are all the deposits of
-- those that were read, and at most `room`; some were left only if the room was used up.
pub record IsPage (q : DepositQuery) (room low : ℕ) (events : List ScannerEvent)
    (items : List Deposit) (high : ℕ) : Type 0 where
  pub seen : List ScannerEvent
  pub left : List ScannerEvent
  pub split_eq : events ≡ seen ++ left
  pub ascending : Ascends low seen high
  pub items_eq : items ≡ deposits_of q seen
  pub fits : length items ≤ room
  pub full : (left ≡ []) ⊎ (length items ≡ room)

scan_cons-cases :
    (d : Deposit) (s : Scan) (items : List Deposit) (high : ℕ)
    → scan_cons d s ≡ scanned items high
    → (ds : List Deposit) × (s ≡ scanned ds high) × (d ∷ ds ≡ items)
unfolding scan_cons
scan_cons-cases d broken items high h = absurd (cc h)
scan_cons-cases d (scanned ds n) items high h = (ds, ground (arith, h), ground (arith, h))

Outcome-cases :
    (o : Outcome) → (o ≡ invalid_event) ⊎ ((o ≡ skipped) ⊎ ((d : Deposit) × (o ≡ listed d)))
Outcome-cases invalid_event = inl refl
Outcome-cases skipped = inr (inl refl)
Outcome-cases (listed d) = inr (inr (d, refl))

skip-IsPage :
    (q : DepositQuery) (room low : ℕ) (e : ScannerEvent) (events : List ScannerEvent)
    (items : List Deposit) (high : ℕ)
    → low < e.id
    → outcome_of q e ≡ skipped
    → IsPage q room e.id events items high
    → IsPage q room low (e ∷ events) items high
unfolding deposits_of
skip-IsPage q room low e events items high lt o r = record {
  seen = e ∷ r.seen;
  left = r.left;
  split_eq = ap (λ x. e ∷ x) r.split_eq;
  ascending = climbs lt r.ascending;
  items_eq = r.items_eq ∙ ground (arith, o);
  fits = r.fits;
  full = r.full;
}

list-IsPage :
    (q : DepositQuery) (room low : ℕ) (e : ScannerEvent) (events : List ScannerEvent) (d : Deposit)
    (items : List Deposit) (high : ℕ)
    → low < e.id
    → 1 < room
    → outcome_of q e ≡ listed d
    → IsPage q (room - 1) e.id events items high
    → IsPage q room low (e ∷ events) (d ∷ items) high
unfolding deposits_of
list-IsPage q room low e events d items high lt two o r =
    let i = r.items_eq in
    let f = r.fits in
    record {
      seen = e ∷ r.seen;
      left = r.left;
      split_eq = ap (λ x. e ∷ x) r.split_eq;
      ascending = climbs lt r.ascending;
      items_eq = ground (arith, o, i);
      fits = omega (arith, f, two);
      full = elim r.full [ inl n ↦ inl n | inr n ↦ inr (omega (arith, n, two)) ];
    }

-- What the loop answers is a page of the events, read in ascending order: all the deposits of the
-- events up to the last one read, in their order, none left out and none twice, and at most as many as
-- there is room for. Events are left for the next page only if the room was used up.
pub scan_events-IsPage :
    (q : DepositQuery) (room low : ℕ) (events : List ScannerEvent) (items : List Deposit) (high : ℕ)
    → 0 < room
    → scan_events q room low events ≡ scanned items high
    → IsPage q room low events items high
unfolding scan_events deposits_of
scan_events-IsPage q room low [] items high pos h =
    let i : items ≡ [] = ground (arith, h) in
    let j : high ≡ low = ground (arith, h) in
    record {
      seen = [];
      left = [];
      split_eq = refl;
      ascending = subst (λ x. Ascends low [] x) (sym j) stays;
      items_eq = i;
      fits = ground (arith, i);
      full = inl refl;
    }
scan_events-IsPage q room low (e ∷ events) items high pos h =
    let up : low < e.id = ground (arith, h) in
    elim (Outcome-cases (outcome_of q e)) [
      | inl o ↦ absurd (ground (arith, h, up, o))
      | inr (inl o) ↦
          let rest : scan_events q room e.id events ≡ scanned items high =
            ground (arith, h, up, o) in
          skip-IsPage q room low e events items high up o
            (scan_events-IsPage q room e.id events items high pos rest)
      | inr (inr (d, o)) ↦ elim (Bool-cases (leb room 1)) [
        | inl one ↦
            let i : items ≡ d ∷ [] = ground (arith, h, up, o, one) in
            let j : high ≡ e.id = ground (arith, h, up, o, one) in
            let k : room ≡ 1 = ground (arith, one, pos) in
            record {
              seen = e ∷ [];
              left = events;
              split_eq = refl;
              ascending = subst (λ x. Ascends low (e ∷ []) x) (sym j) (climbs up stays);
              items_eq = ground (arith, i, o);
              fits = ground (arith, i, k);
              full = inr (ground (arith, i, k));
            }
        | inr more ↦
            let two : 1 < room = ground (arith, more) in
            let c =
              scan_cons-cases d (scan_events q (room - 1) e.id events) items high
                (ground (arith, h, up, o, more)) in
            let r = scan_events-IsPage q (room - 1) e.id events c.0 high (omega (arith, two)) c.1 in
            subst (λ x. IsPage q room low (e ∷ events) x high) c.2
              (list-IsPage q room low e events d c.0 high up two o r)
      ]
    ]
