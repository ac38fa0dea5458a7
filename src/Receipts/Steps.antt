-- ===== src/Receipts/Steps.antt =====
-- Any sequence of receipt operations, by whichever requests.
use juno_exchange_gateway.Prelude.{
  ℕ, ◌≡◌, refl, false, none, some, List, ◌∷◌, String, str_eq, str_eq_iff, arith, Option-cases,
  Bool-cases, inl, inr,
}
use juno_exchange_gateway.Receipts.{
  Receipt, find_receipt, is_owned, update_owned, claim_receipt, claim_existing, new_receipt,
  reclaimed, renew_receipt, complete_receipt, abandon_receipt,
}
use juno_exchange_gateway.Receipts.Fencing.{
  find_receipt-key, Later, Later-refl, Later-trans, Remains, untouched, set-Remains, Later-going,
}

pub data Step (rows : List Receipt) : List Receipt → Type 0 where
  by_claim :
      (key digest txid : String) (now lease : ℕ)
      → Step rows (claim_receipt key digest txid now lease rows).1
  by_renew :
      {after : List Receipt} (key digest : String) (generation now : ℕ)
      → renew_receipt key digest generation now rows ≡ some after
      → Step rows after
  by_complete :
      {after : List Receipt} (key digest : String) (generation status : ℕ) (response : String)
      (now : ℕ)
      → complete_receipt key digest generation status response now rows ≡ some after
      → Step rows after
  by_abandon :
      {after : List Receipt} (key digest : String) (generation : ℕ)
      → abandon_receipt key digest generation rows ≡ some after
      → Step rows after

pub data Steps (rows : List Receipt) : List Receipt → Type 0 where
  start : Steps rows rows
  then_step : {mid after : List Receipt} → Steps rows mid → Step mid after → Steps rows after

-- a new row does not hide a row with another key
find_receipt-cons :
    (key : String) (r new : Receipt) (rows : List Receipt)
    → find_receipt key rows ≡ some r
    → find_receipt new.key rows ≡ none
    → find_receipt key (new ∷ rows) ≡ some r
unfolding find_receipt
find_receipt-cons key r new rows h n = elim (Bool-cases (str_eq new.key key)) [
  | inl e ↦
      let i = (str_eq_iff new.key key).0 e in
      let n' : find_receipt key rows ≡ none = rw i at n in absurd (ground (arith, h, n'))
  | inr e ↦ ground (arith, h)
]

module _ (key : String) (r : Receipt) (rows : List Receipt)
    (here : find_receipt key rows ≡ some r) where
  claim-Remains :
      (other digest txid : String) (now lease : ℕ)
      → Remains key r (claim_receipt other digest txid now lease rows).1
  unfolding claim_receipt reclaimed new_receipt claim_existing
  claim-Remains other digest txid now lease = elim (Option-cases (find_receipt other rows)) [
    | inl n ↦
        rw (n, claim_receipt)
          (record {
            row = r;
            found = find_receipt-cons key r (new_receipt other digest txid now) rows here n;
            later = Later-refl r;
          })
    | inr (s, h) ↦
        let k = find_receipt-key other rows s h in
        let u = untouched key r rows here in
        let v = λ (going : s.complete ≡ false).
          set-Remains key r rows here s.key s (reclaimed txid now s) (simp k h) refl
            (Later-going s _ going refl (omega arith)) in
        rw (h, claim_receipt) (ground (arith, u, v))
  ]

  owned-Remains :
      (other digest : String) (generation : ℕ) (f : Receipt → Receipt) (after : List Receipt)
      → ((s : Receipt) → (f s).key ≡ s.key)
      → ((s : Receipt) → s.complete ≡ false → Later s (f s))
      → update_owned other digest generation f rows ≡ some after
      → Remains key r after
  unfolding update_owned is_owned
  owned-Remains other digest generation f after k l h =
      elim (Option-cases (find_receipt other rows)) [
        | inl n ↦ absurd (ground arith)
        | inr (s, e) ↦
            let v = λ (going : s.complete ≡ false).
              set-Remains key r rows here other s (f s) e (k s) (l s going) in
            ground (arith, v)
      ]

Step-Remains :
    (key : String) (r : Receipt) {rows after : List Receipt}
    → find_receipt key rows ≡ some r
    → Step rows after
    → Remains key r after
unfolding renew_receipt complete_receipt abandon_receipt
Step-Remains key r {rows} f (by_claim other digest txid now lease) =
    claim-Remains key r rows f other digest txid now lease
Step-Remains key r {rows} f (by_renew {after = after} other digest generation now h) =
    owned-Remains key r rows f other digest generation _ after (λ s. refl)
      (λ s o. Later-going s _ o refl (omega arith)) h
Step-Remains key r {rows} f
      (by_complete {after = after} other digest generation status response now h) =
    owned-Remains key r rows f other digest generation _ after (λ s. refl)
      (λ s o. Later-going s _ o refl (omega arith)) h
Step-Remains key r {rows} f (by_abandon {after = after} other digest generation h) =
    owned-Remains key r rows f other digest generation _ after (λ s. refl)
      (λ s o. Later-going s _ o refl (omega arith)) h

-- After any receipt operations, of whichever keys and claims, a receipt is still there with its
-- payload, its generation has not fallen, and a complete one is the same as before.
pub receipt-Remains :
    (key : String) (r : Receipt) {rows after : List Receipt}
    → find_receipt key rows ≡ some r
    → Steps rows after
    → Remains key r after
receipt-Remains key r f start = untouched key r _ f
receipt-Remains key r f (then_step s t) =
    let m = receipt-Remains key r f s in
    let n = Step-Remains key m.row m.found t in
    record { row = n.row; found = n.found; later = Later-trans r m.row n.row m.later n.later }
