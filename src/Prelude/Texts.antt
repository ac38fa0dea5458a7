-- ===== src/Prelude/Texts.antt =====
-- Texts: identifiers, digests and error codes are native strings, which the code only compares.
use Prim.Native.String.{String, compare}
use Prim.Native.Nat.{Ordering}
use mathlib.Core.Path.{◌≡◌}
use mathlib.Core.Logic.{◌≢◌, ◌↔◌}
use mathlib.Core.Bool.{Bool, true, false}
use native.Mathlib.Omega.{arith}
use text.Mathlib.Text.{◌==◌ as same}
use text.Mathlib.TextEquality.{eq_iff as same_iff}

-- Go's `==` on strings
unfoldable pub str_eq : String → String → Bool
str_eq s t = same s t

pub str_eq_iff : (s t : String) → (str_eq s t ≡ true) ↔ (s ≡ t)
unfolding str_eq
str_eq_iff s t = same_iff s t

pub str_eq_refl : (s : String) → str_eq s s ≡ true
str_eq_refl s = ground (arith, str_eq_iff s s)

pub str_eq_of_ne : (s t : String) → s ≢ t → str_eq s t ≡ false
str_eq_of_ne s t h = ground (arith, str_eq_iff s t)

-- SQLite's BINARY collation and Go's `<` compare UTF-8 bytes
unfoldable pub str_lt : String → String → Bool
str_lt s t = elim (compare s t) [ Ordering.lt ↦ true | _ ↦ false ]

abbrev pub is_empty : String → Bool
is_empty s = str_eq s ""
