-- ===== src/Addresses/Coverage.antt =====
-- What the comparison at startup shows.
use juno_exchange_gateway.Prelude.{
  ℕ, ◌+◌, ◌≤◌, ◌<◌, ◌≡◌, ◌↔◌, Bool, true, false, ◌||◌, some, List, [], ◌∷◌, arith, ltb, ◌==◌,
  Option-cases, Bool-cases, inl, inr,
}
use juno_exchange_gateway.Addresses.{coverage, verify_address_coverage}

abbrev pub has_index : ℕ → List ℕ → Bool
has_index i [] = false
has_index i (j ∷ js) = i == j || has_index i js

-- The indices of both lists are those from `covered` up to `n`.
abbrev Exactly : ℕ → ℕ → List ℕ → List ℕ → Type 0
Exactly covered n ps ss =
    (covered ≤ n)
    × ((i : ℕ) → ((has_index i ps || has_index i ss) ≡ true) ↔ ((covered ≤ i) × (i < n)))

-- one more index, in front of either list or of both
Exactly-more :
    (covered n j : ℕ) (ps ss ps' ss' : List ℕ)
    → j ≡ covered
    → ((i : ℕ)
        → (has_index i ps' || has_index i ss') ≡ (i == j || (has_index i ps || has_index i ss)))
    → Exactly (covered + 1) n ps ss
    → Exactly covered n ps' ss'
Exactly-more covered n j ps ss ps' ss' e more x = (
  omega (arith, x.0),
  λ i.
      let y = x.1 i in
      let m = more i in (λ k. ground (arith, y, m, e), λ k. ground (arith, y, m, e)),
)

coverage_sound :
    (covered n : ℕ) (ps ss : List ℕ) → coverage covered ps ss ≡ some n → Exactly covered n ps ss
unfolding coverage
coverage_sound covered n [] [] h = (ground arith, λ i. (λ k. ground arith, λ k. ground arith))
coverage_sound covered n [] (s ∷ ss) h = elim (Bool-cases (s == covered)) [
  | inr e ↦ absurd (ground arith)
  | inl e ↦
      Exactly-more covered n s [] ss [] (s ∷ ss) (ground arith) (λ i. ground arith)
        (coverage_sound (covered + 1) n [] ss (ground arith))
]
coverage_sound covered n (p ∷ ps) [] h = elim (Bool-cases (p == covered)) [
  | inr e ↦ absurd (ground arith)
  | inl e ↦
      Exactly-more covered n p ps [] (p ∷ ps) [] (ground arith) (λ i. ground arith)
        (coverage_sound (covered + 1) n ps [] (ground arith))
]
coverage_sound covered n (p ∷ ps) (s ∷ ss) h = elim (Bool-cases (ltb p s)) [
  | inl a ↦
      Exactly-more covered n p ps (s ∷ ss) (p ∷ ps) (s ∷ ss) (ground arith) (λ i. ground arith)
        (coverage_sound (covered + 1) n ps (s ∷ ss) (ground arith))
  | inr a ↦ elim (Bool-cases (ltb s p)) [
    | inl b ↦
        Exactly-more covered n s (p ∷ ps) ss (p ∷ ps) (s ∷ ss) (ground arith) (λ i. ground arith)
          (coverage_sound (covered + 1) n (p ∷ ps) ss (ground arith))
    | inr b ↦
        Exactly-more covered n p ps ss (p ∷ ps) (s ∷ ss) (ground arith) (λ i. ground arith)
          (coverage_sound (covered + 1) n ps ss (ground arith))
  ]
]

-- The comparison at startup accepts a wallet only if the indices that have a row and those that were
-- skipped are together exactly the indices below the high-water mark.
pub verify_address_coverage_sound :
    (next : ℕ) (skipped present : List ℕ)
    → verify_address_coverage next skipped present ≡ true
    → (i : ℕ) → ((has_index i present || has_index i skipped) ≡ true) ↔ (i < next)
unfolding verify_address_coverage
verify_address_coverage_sound next skipped present h i =
    elim (Option-cases (coverage 0 present skipped)) [
      | inl e ↦ absurd (ground arith)
      | inr (n, e) ↦
          let x = (coverage_sound 0 n present skipped e).1 i in
          (λ k. ground (arith, e, x), λ k. ground (arith, e, x))
    ]
