-- ===== src/Receipts/Fencing.antt =====
-- A claim that was taken over can do nothing more.
use mathlib.Core.Path.{subst}
use juno_exchange_gateway.Prelude.{
  ◌≤◌, ◌≡◌, ◌∙◌, refl, true, false, some, List, [], ◌∷◌, String, str_eq, str_eq_iff, arith,
  Bool-cases, inl, inr,
}
use juno_exchange_gateway.Receipts.{Receipt, find_receipt, set_receipt}

pub find_receipt-key :
    (key : String) (rows : List Receipt) (r : Receipt)
    → find_receipt key rows ≡ some r
    → r.key ≡ key
unfolding find_receipt
find_receipt-key key [] r h = ground arith
find_receipt-key key (a ∷ rows) r h =
    ground (arith, find_receipt-key key rows r, str_eq_iff a.key key)

pub find_receipt-set_self :
    (key : String) (new r : Receipt) (rows : List Receipt)
    → new.key ≡ key
    → find_receipt key rows ≡ some r
    → find_receipt key (set_receipt key new rows) ≡ some new
unfolding find_receipt set_receipt
find_receipt-set_self key new r [] k h = ground arith
find_receipt-set_self key new r (a ∷ rows) k h =
    ground (arith, find_receipt-set_self key new r rows k, str_eq_iff new.key key)

find_receipt-set_ne :
    (key other : String) (new : Receipt) (rows : List Receipt)
    → new.key ≡ key
    → str_eq other key ≡ false
    → find_receipt other (set_receipt key new rows) ≡ find_receipt other rows
unfolding find_receipt set_receipt
find_receipt-set_ne key other new [] k h = refl
find_receipt-set_ne key other new (a ∷ rows) k h = ground (
  arith,
  find_receipt-set_ne key other new rows k h,
  str_eq_iff new.key other,
  str_eq_iff a.key other,
  str_eq_iff a.key key,
  str_eq_iff other key,
)

-- A receipt later on: its payload is the same, its generation does not fall, and a complete receipt
-- is the same for good.
pub record Later (r s : Receipt) : Type 0 where
  pub payload_kept : s.payload_digest ≡ r.payload_digest
  pub generation_grows : r.generation ≤ s.generation
  pub complete_kept : r.complete ≡ true → s ≡ r

pub Later-refl : (r : Receipt) → Later r r
Later-refl r = record {
  payload_kept = refl;
  generation_grows = omega arith;
  complete_kept = λ h. refl;
}

pub Later-trans : (r s t : Receipt) → Later r s → Later s t → Later r t
Later-trans r s t p q = record {
  payload_kept = q.payload_kept ∙ p.payload_kept;
  generation_grows = omega (arith, p.generation_grows, q.generation_grows);
  complete_kept = λ h. let e = p.complete_kept h in q.complete_kept (rw e h) ∙ e;
}

-- a receipt that was not complete may change
pub Later-going :
    (r s : Receipt)
    → r.complete ≡ false
    → s.payload_digest ≡ r.payload_digest
    → r.generation ≤ s.generation
    → Later r s
Later-going r s going p g = record {
  payload_kept = p;
  generation_grows = g;
  complete_kept = λ c. absurd (cc (c, going));
}

-- The receipt of the key is still there, and `Later`.
pub record Remains (key : String) (r : Receipt) (rows : List Receipt) : Type 0 where
  pub row : Receipt
  pub found : find_receipt key rows ≡ some row
  pub later : Later r row

module _ (key : String) (r : Receipt) (rows : List Receipt)
    (here : find_receipt key rows ≡ some r) where
  pub untouched : Remains key r rows
  untouched = record { row = r; found = here; later = Later-refl r }

  pub set-Remains :
      (other : String) (s new : Receipt)
      → find_receipt other rows ≡ some s
      → new.key ≡ s.key
      → Later s new
      → Remains key r (set_receipt other new rows)
  set-Remains other s new found k l = elim (Bool-cases (str_eq key other)) [
    | inr ne ↦ record {
      row = r;
      found =
          find_receipt-set_ne other key new rows (k ∙ find_receipt-key other rows s found) ne
          ∙ here;
      later = Later-refl r;
    }
    | inl eq ↦
        let i = (str_eq_iff key other).0 eq in
        let found' : find_receipt key rows ≡ some s = rw i found in
        let same : s ≡ r = cc (found', here) in
        record {
          row = new;
          found = rw i (
              find_receipt-set_self other new s rows (k ∙ find_receipt-key other rows s found)
                found);
          later = subst (λ x. Later x new) same l;
        }
  ]
