-- ===== src/Attempts/Reserve/Sorting.antt =====
-- Sorting the note IDs keeps them.
use juno_exchange_gateway.Prelude.{◌≡◌, refl, ◌||◌, List, [], ◌∷◌, String, str_eq, mem, arith}
use juno_exchange_gateway.Attempts.Reserve.{insert_sorted, sort_strings}

mem-insert_sorted :
    (s x : String) (xs : List String) → mem s (insert_sorted x xs) ≡ (str_eq s x || mem s xs)
unfolding insert_sorted
mem-insert_sorted s x [] = refl
mem-insert_sorted s x (y ∷ ys) = ground (arith, mem-insert_sorted s x ys)

pub mem-sort_strings : (s : String) (xs : List String) → mem s (sort_strings xs) ≡ mem s xs
unfolding sort_strings
mem-sort_strings s [] = refl
mem-sort_strings s (x ∷ xs) =
    ground (arith, mem-insert_sorted s x (sort_strings xs), mem-sort_strings s xs)
