-- ===== src/Tests/Receipts.antt =====
-- A claim that lapses and is taken over.
use juno_exchange_gateway.Prelude.{ℕ, ◌≡◌, refl, false, none, some, List, [], ◌∷◌, str_eq}
use juno_exchange_gateway.Receipts.{
  Receipt, acquired, find_receipt, claim_receipt, complete_receipt, renew_receipt, abandon_receipt,
  reclaimed,
}
use juno_exchange_gateway.Receipts.Fencing.{Remains}
use juno_exchange_gateway.Receipts.Steps.{start, then_step, by_claim, receipt-Remains}
use juno_exchange_gateway.Receipts.Takeover.{claim-fenced}

abbrev receipt : ℕ → ℕ → Receipt
receipt generation at = record {
  key = "k";
  payload_digest = "d";
  expected_txid = "t";
  generation = generation;
  complete = false;
  http_status = 0;
  response_json = "";
  updated_at = at;
}

first_claim : (claim_receipt "k" "d" "t" 5 10 []).0 ≡ (acquired, receipt 1 5)
unfolding claim_receipt find_receipt
first_claim = refl

second_claim :
    (claim_receipt "k" "d" "t" 20 10 (claim_receipt "k" "d" "t" 5 10 []).1).0
    ≡ (acquired, receipt 2 20)
unfolding claim_receipt find_receipt str_eq reclaimed
second_claim = refl

abbrev taken_over : List Receipt
taken_over = (claim_receipt "k" "d" "t" 20 10 (claim_receipt "k" "d" "t" 5 10 []).1).1

claim-fenced_example :
    (complete_receipt "k" "d" 1 200 "{}" 21 taken_over ≡ none)
    × (renew_receipt "k" "d" 1 21 taken_over ≡ none)
    × (abandon_receipt "k" "d" 1 taken_over ≡ none)
claim-fenced_example =
    claim-fenced "k" "d" "t" "d" "t" 5 10 20 10 [] (claim_receipt "k" "d" "t" 5 10 []).1 taken_over
      (receipt 1 5) (receipt 2 20) first_claim start second_claim start 200 "{}" 21

receipt_found : find_receipt "k" (receipt 1 5 ∷ []) ≡ some (receipt 1 5)
unfolding find_receipt str_eq
receipt_found = refl

receipt-Remains_example :
    Remains "k" (receipt 1 5) (claim_receipt "k" "d" "t" 20 10 (receipt 1 5 ∷ [])).1
receipt-Remains_example =
    receipt-Remains "k" (receipt 1 5) receipt_found (then_step start (by_claim "k" "d" "t" 20 10))
