-- ===== src/Prelude/Lists.antt =====
-- Lists measured by native numbers, membership by a Boolean test.
use Prim.Native.Nat.{ℕ, suc}
use Prim.Native.String.{String}
use mathlib.Core.Bool.{Bool, true, false, ◌||◌}
use mathlib.Core.List.{List, [], ◌∷◌}
use juno_exchange_gateway.Prelude.Texts.{str_eq}

module _ {ℓ} {A : Type ℓ} where
  abbrev pub length : List A → ℕ
  length [] = 0
  length (x ∷ xs) = suc (length xs)

  abbrev pub all : (A → Bool) → List A → Bool
  all p [] = true
  all p (x ∷ xs) = elim (p x) [ true ↦ all p xs | false ↦ false ]

abbrev pub mem : String → List String → Bool
mem s [] = false
mem s (x ∷ xs) = str_eq s x || mem s xs
