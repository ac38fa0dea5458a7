-- ===== src/Receipts/Takeover.antt =====
-- Two claims of one key.
use mathlib.Core.Path.{subst}
use juno_exchange_gateway.Prelude.{
  ℕ, ◌<◌, ◌≡◌, none, some, List, ◌∷◌, String, str_eq_iff, arith, Option-cases, inl, inr, sym,
}
use juno_exchange_gateway.Receipts.{
  Receipt, acquired, find_receipt, set_receipt, is_owned, update_owned, claim_receipt,
  claim_existing, new_receipt, reclaimed, renew_receipt, complete_receipt, abandon_receipt,
}
use juno_exchange_gateway.Receipts.Fencing.{find_receipt-key, find_receipt-set_self}
use juno_exchange_gateway.Receipts.Steps.{Steps, receipt-Remains}

find_receipt-head : (r : Receipt) (rows : List Receipt) → find_receipt r.key (r ∷ rows) ≡ some r
unfolding find_receipt
find_receipt-head r rows = ground (arith, str_eq_iff r.key r.key)

-- a claim that is acquired is the row, with a greater generation than the row before it
claim-acquired :
    (key digest txid : String) (now lease : ℕ) (rows : List Receipt) (mine : Receipt)
    → (claim_receipt key digest txid now lease rows).0 ≡ (acquired, mine)
    → (find_receipt key (claim_receipt key digest txid now lease rows).1 ≡ some mine)
      × ((r : Receipt) → find_receipt key rows ≡ some r → r.generation < mine.generation)
unfolding claim_receipt claim_existing new_receipt reclaimed
claim-acquired key digest txid now lease rows mine h = elim (Option-cases (find_receipt key rows)) [
  | inl n ↦
      let row = new_receipt key digest txid now in
      rw (n, claim_receipt) (ground (arith, find_receipt-head row rows), λ r e. absurd (cc e))
  | inr (s, n) ↦
      let k = find_receipt-key key rows s n in
      let new = reclaimed txid now s in
      let same =
        subst (λ x. find_receipt key (set_receipt x new rows) ≡ some new) (sym k)
          (find_receipt-set_self key new s rows k n) in
      let g : mine ≡ new = ground (arith, n) in
      (
        rw (n, claim_receipt) (ground (arith, n, same)),
        λ r e.
            let i : s ≡ r = cc (n, e) in
            rw g (subst (λ x. x.generation < new.generation) i (omega arith)),
      )
]

lapsed :
    (key digest : String) (generation : ℕ) (f : Receipt → Receipt) (rows : List Receipt)
    (r : Receipt)
    → find_receipt key rows ≡ some r
    → generation < r.generation
    → update_owned key digest generation f rows ≡ none
unfolding update_owned is_owned
lapsed key digest generation f rows r h lt = ground arith

-- When a claim was acquired and later acquired again, with any receipt operations in between and
-- after, then the first claim can neither be completed nor renewed nor abandoned any more.
pub claim-fenced :
    (key digest txid digest' txid' : String) (now lease now' lease' : ℕ) (r0 r1 r2 : List Receipt)
    (mine theirs : Receipt)
    → (claim_receipt key digest txid now lease r0).0 ≡ (acquired, mine)
    → Steps (claim_receipt key digest txid now lease r0).1 r1
    → (claim_receipt key digest' txid' now' lease' r1).0 ≡ (acquired, theirs)
    → Steps (claim_receipt key digest' txid' now' lease' r1).1 r2
    → (status : ℕ) (response : String) (at : ℕ)
    → (complete_receipt key digest mine.generation status response at r2 ≡ none)
      × (renew_receipt key digest mine.generation at r2 ≡ none)
      × (abandon_receipt key digest mine.generation r2 ≡ none)
unfolding complete_receipt renew_receipt abandon_receipt
claim-fenced key digest txid digest' txid' now lease now' lease' r0 r1 r2 mine theirs h s h' s'
      status response at =
    let m = claim-acquired key digest txid now lease r0 mine h in
    let p = receipt-Remains key mine m.0 s in
    let n = claim-acquired key digest' txid' now' lease' r1 theirs h' in
    let q = receipt-Remains key theirs n.0 s' in
    let lt : mine.generation < q.row.generation =
      omega (arith, p.later.generation_grows, n.1 p.row p.found, q.later.generation_grows) in
    (
      lapsed key digest mine.generation _ r2 q.row q.found lt,
      lapsed key digest mine.generation _ r2 q.row q.found lt,
      lapsed key digest mine.generation _ r2 q.row q.found lt,
    )
