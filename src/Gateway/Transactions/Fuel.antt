-- ===== src/Gateway/Transactions/Fuel.antt =====
-- The loop over the pages of a transaction's effects ends.
use juno_exchange_gateway.Gateway.Deposits.Handler.{EventsPage}
use juno_exchange_gateway.Gateway.Effects.{ScannerEvent, WalletEffect}
use mathlib.Core.Path.{subst}
use juno_exchange_gateway.Gateway.Transactions.{
  page_read, page_failed, out_of_fuel, EffectsError, EffectsQuery, PageRead, page_limit,
  read_effect, read_page, wallet_effects_from, wallet_effects,
}
use juno_exchange_gateway.Prelude.{
  zero, suc, List, Option, Option-cases, [], arith, inl, inr, length, refl, ℕ, ◌++◌, ◌+◌, ◌<◌, ◌∷◌,
  ◌≡◌, ◌≤◌, ◌⊎◌,
}

length_snoc : (xs : List WalletEffect) (x : WalletEffect) → length (xs ++ x ∷ []) ≡ length xs + 1
length_snoc [] x = refl
length_snoc (y ∷ xs) x = let ih = length_snoc xs x in ground (arith, ih)

-- a page adds an effect for each event, and stays within the cap
read_page-length :
    (q : EffectsQuery) (position : ℕ) (effects : List WalletEffect) (events : List ScannerEvent)
    (last : ℕ) (all_effects : List WalletEffect)
    → length effects ≤ q.max_events
    → read_page q position effects events ≡ page_read last all_effects
    → (length all_effects ≡ length effects + length events) × (length all_effects ≤ q.max_events)
unfolding read_page
read_page-length q position effects [] last all_effects cap h =
    let i : effects ≡ all_effects = ground (arith, h) in
    subst (λ x. (length x ≡ length effects + 0) × (length x ≤ q.max_events)) i (omega arith, cap)
read_page-length q position effects (e ∷ events) last all_effects cap h =
    elim (Option-cases (read_effect q e)) [
      | inl n ↦ absurd (ground (arith, h, n))
      | inr (effect, n) ↦
          let grown = length_snoc effects effect in
          let within : length (effects ++ effect ∷ []) ≤ q.max_events = ground (arith, h, n) in
          let r =
            read_page-length q e.id (effects ++ effect ∷ []) events last all_effects within
              (ground (arith, h, n)) in
          (omega (arith, r.0, grown), r.1)
    ]

PageRead-cases :
    (r : PageRead)
    → ((e : EffectsError) × (r ≡ page_failed e))
      ⊎ ((n : ℕ) × (es : List WalletEffect) × (r ≡ page_read n es))
PageRead-cases (page_failed e) = inl (e, refl)
PageRead-cases (page_read n es) = inr (n, es, refl)

fuel_enough :
    (q : EffectsQuery) (ask : ℕ → ℕ → Option EventsPage) (fuel position : ℕ)
    (effects : List WalletEffect)
    → length effects ≤ q.max_events
    → q.max_events < length effects + fuel
    → ¬ (wallet_effects_from q ask fuel position effects ≡ out_of_fuel)
unfolding wallet_effects_from page_limit
fuel_enough q ask zero position effects cap more h = absurd (omega (arith, cap, more))
fuel_enough q ask (suc fuel) position effects cap more h =
    elim (Option-cases (ask position (page_limit q effects))) [
      | inl n ↦ absurd (ground (arith, h, n))
      | inr (page, n) ↦ elim (PageRead-cases (read_page q position effects page.events)) [
        | inl (err, r) ↦ absurd (ground (arith, h, n, r))
        | inr (last, all_effects, r) ↦
            let k = read_page-length q position effects page.events last all_effects cap r in
            let full : page_limit q effects ≤ length page.events = ground (arith, h, n, r) in
            let again : wallet_effects_from q ask fuel last all_effects ≡ out_of_fuel =
              ground (arith, h, n, r) in
            fuel_enough q ask fuel last all_effects k.1 (omega (arith, k.0, cap, more, full)) again
      ]
    ]

-- The loop over the pages of a transaction's effects ends, whatever the scanner answers: it asks for
-- one page more than the cap on the effects at most.
pub wallet_effects_ends :
    (q : EffectsQuery) (ask : ℕ → ℕ → Option EventsPage) → ¬ (wallet_effects q ask ≡ out_of_fuel)
unfolding wallet_effects
wallet_effects_ends q ask = fuel_enough q ask (q.max_events + 1) 0 [] (omega arith) (omega arith)
