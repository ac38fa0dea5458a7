-- ===== src/Coordinator/Request/Bounds.antt =====
-- An accepted request stays within the configured amount, and its total does not wrap.
use juno_exchange_gateway.Prelude.{
  String, trim_space, ℕ, zero, suc, ◌+◌, ◌*◌, ◌/◌, ◌%◌, ◌^◌, ◌≤◌, ◌<◌, ◌≡◌, none, some, List, [],
  ◌∷◌, arith, Option-cases, inl, inr, length,
}
use juno_exchange_gateway.Domain.Hex.{codes, parse_decimal_zat}
use juno_exchange_gateway.Coordinator.Request.{
  Config, Wallet, Output, NoteSplit, CreateRequest, trimmed, output_amount, normalize_outputs,
  normalize_split, normalize_withdrawal, normalize_create_request, repeat_output, plan_outputs,
}

-- the amount that an output states, 0 if it states none
abbrev pub amount_of : Output → ℕ
amount_of o = elim (parse_decimal_zat (codes o.amount_zat)) [ none ↦ 0 | some n ↦ n ]

abbrev pub sum_amounts : List Output → ℕ
sum_amounts [] = 0
sum_amounts (o ∷ os) = amount_of o + sum_amounts os

abbrev pub AllPositive : List Output → Type 0
AllPositive [] = Unit
AllPositive (o ∷ os) = (0 < amount_of o) × AllPositive os

output_amount-bounds :
    (cfg : Config) (total amount : ℕ) (o : Output)
    → output_amount cfg total o ≡ some amount
    → (amount_of o ≡ amount)
      × (0 < amount)
      × (amount ≤ cfg.max_amount_zat)
      × (total + amount ≤ cfg.max_amount_zat)
unfolding output_amount
output_amount-bounds cfg total amount o h = ground arith

-- The loop adds without wrapping, and keeps within the maximum.
pub normalize_outputs-bounds :
    (cfg : Config) (total sum : ℕ) (os os' : List Output)
    → cfg.max_amount_zat < 2 ^ 63
    → total ≤ cfg.max_amount_zat
    → normalize_outputs cfg total os ≡ some (os', sum)
    → (sum ≡ total + sum_amounts os')
      × (sum ≤ cfg.max_amount_zat)
      × AllPositive os'
      × (length os' ≡ length os)
unfolding normalize_outputs
normalize_outputs-bounds cfg total sum [] os' m t h = ground arith
normalize_outputs-bounds cfg total sum (o ∷ os) os' m t h =
    elim (Option-cases (output_amount cfg total (trimmed o))) [
      | inl e ↦ ground arith
      | inr (amount, e) ↦
          let b = output_amount-bounds cfg total amount (trimmed o) e in
          let w : (total + amount) % 2 ^ 64 ≡ total + amount = omega arith in
          elim (Option-cases (normalize_outputs cfg ((total + amount) % 2 ^ 64) os)) [
            | inl f ↦ ground arith
            | inr ((rest, sum'), f) ↦
                let ih =
                  normalize_outputs-bounds cfg (total + amount) sum' os rest m b.3 (rw w at f) in
                ground (arith, e, f, ih, b)
          ]
    ]

-- What a note split pays out.
repeat_output-bounds :
    (n : ℕ) (o : Output)
    → (sum_amounts (repeat_output n o) ≡ n * amount_of o)
      × (length (repeat_output n o) ≡ n)
      × (0 < amount_of o → AllPositive (repeat_output n o))
unfolding repeat_output
repeat_output-bounds zero o = (omega arith, omega arith, λ h. tt)
repeat_output-bounds (suc n) o =
    let ih = repeat_output-bounds n o in
    (omega (arith, ih.0), omega (arith, ih.1), λ h. (h, ih.2 h))

abbrev pub IsBounded : Config → List Output → Type 0
IsBounded cfg os =
    (sum_amounts os ≤ cfg.max_amount_zat)
    × AllPositive os
    × (1 ≤ length os)
    × (length os ≤ cfg.max_outputs)

normalize_withdrawal-bounds :
    (cfg : Config) (r r' : CreateRequest) (change : String)
    → cfg.max_amount_zat < 2 ^ 63
    → r.split ≡ none
    → normalize_withdrawal cfg r ≡ some r'
    → IsBounded cfg (plan_outputs change r')
unfolding normalize_withdrawal plan_outputs
normalize_withdrawal-bounds cfg r r' change m u h =
    elim (Option-cases (normalize_outputs cfg 0 r.outputs)) [
      | inl e ↦ ground arith
      | inr ((outputs, total), e) ↦
          let b = normalize_outputs-bounds cfg 0 total r.outputs outputs m (omega arith) e in
          ground (arith, e, b)
    ]

quotient_bound : (k n m : ℕ) → n ≤ m / k → k * n ≤ m
quotient_bound k n m h = grind arith

normalize_split-bounds :
    (cfg : Config) (r r' : CreateRequest) (s : NoteSplit) (change : String)
    → normalize_split cfg r s ≡ some r'
    → IsBounded cfg (plan_outputs change r')
unfolding normalize_split plan_outputs
normalize_split-bounds cfg r r' s change h =
    let o : Output = record {
      to_address = change;
      amount_zat = trim_space s.note_zat;
      memo_hex = "";
    } in
    let b = repeat_output-bounds s.note_count o in
    let q = quotient_bound s.note_count (amount_of o) cfg.max_amount_zat in ground (arith, b, q)

-- With a maximum amount that an int64 holds: what an accepted request pays out, as a withdrawal or as
-- a note split, is between 1 and the configured number of outputs, each positive, whose true sum is
-- at most the configured maximum.
pub normalize_create_request-bounds :
    (cfg : Config) (wallet : Wallet) (raw r' : CreateRequest) (change : String)
    → cfg.max_amount_zat < 2 ^ 63
    → normalize_create_request cfg wallet raw ≡ some r'
    → IsBounded cfg (plan_outputs change r')
unfolding normalize_create_request
normalize_create_request-bounds cfg wallet raw r' change m h =
    let r : CreateRequest = record raw {
      wallet_id = trim_space raw.wallet_id;
      approval_reference = trim_space raw.approval_reference;
    } in
    elim (Option-cases raw.split) [
      | inl u ↦ normalize_withdrawal-bounds cfg r r' change m u (ground arith)
      | inr (s, u) ↦ normalize_split-bounds cfg r r' s change (ground arith)
    ]
