-- ===== src/Domain/Hex.antt =====
-- Character tests: `isLowerHex64`, `ValidNoteID` and the note-ID pattern of the coordinator.
use Prim.Native.Char.{code}
use juno_exchange_gateway.Prelude.{
  ℕ, zero, suc, ◌+◌, ◌-◌, ◌*◌, ◌^◌, Bool, true, false, ◌&&◌, ◌||◌, not, Option, none, some, List,
  [], ◌∷◌, String, ltb, leb, ◌==◌, length, all, if◌then◌else◌,
}

-- The characters of a text, by their code points.
abbrev pub codes : String → List ℕ
codes String.[] = []
codes (String.◌∷◌ c s) = code c ∷ codes s

unfoldable pub is_digit : ℕ → Bool
is_digit c = leb b'0' c && leb c b'9'

unfoldable pub is_lower_hex : ℕ → Bool
unfolding is_digit
is_lower_hex c = is_digit c || leb b'a' c && leb c b'f'

unfoldable pub is_lower_hex64 : List ℕ → Bool
is_lower_hex64 value = length value == 64 && all is_lower_hex value

-- `strings.Cut(value, ":")`: what stands before the first colon and after it
unfoldable pub cut_colon : List ℕ → Option (List ℕ × List ℕ)
cut_colon [] = none
cut_colon (c ∷ cs) =
    if c == b':'
    then some ([], cs)
    else elim (cut_colon cs) [ none ↦ none | some (a, b) ↦ some (c ∷ a, b) ]

-- the value of a list of digits
unfoldable pub decimal : ℕ → List ℕ → ℕ
decimal acc [] = acc
decimal acc (c ∷ cs) = decimal (acc * 10 + (c - 48)) cs

-- `strconv.ParseUint(s, 10, bits)`: digits only, and in range
unfoldable pub parse_uint : ℕ → List ℕ → Option ℕ
parse_uint bits s =
    if length s == 0
    then none
    else if all is_digit s
    then if ltb (decimal 0 s) (2 ^ bits) then some (decimal 0 s) else none
    else none

unfoldable pub leading_zero : List ℕ → Bool
leading_zero (c ∷ d ∷ rest) = c == b'0'
leading_zero s = false

abbrev is_some {ℓ} : {A : Type ℓ} → Option A → Bool
is_some none = false
is_some (some a) = true

unfoldable pub valid_note_id : List ℕ → Bool
valid_note_id value = elim (cut_colon value) [
  | none ↦ false
  | some (txid, action) ↦
      is_lower_hex64 txid
      && not (length action == 0)
      && not (leading_zero action)
      && all is_digit action
      && is_some (parse_uint 32 action)
]

-- internal/coordinator/types.go: `noteIDRE`, `^[0-9a-f]{64}:(0|[1-9][0-9]*)$`
take_hex : ℕ → List ℕ → Option (List ℕ)
take_hex zero s = some s
take_hex (suc n) [] = none
take_hex (suc n) (c ∷ cs) = elim (is_lower_hex c) [ true ↦ take_hex n cs | false ↦ none ]

canonical_decimal : List ℕ → Bool
canonical_decimal [] = false
canonical_decimal (c ∷ cs) =
    c == b'0' && length cs == 0 || (leb b'1' c && leb c b'9' && all is_digit cs)

after_colon : List ℕ → Option (List ℕ)
after_colon [] = none
after_colon (c ∷ cs) = if c == b':' then some cs else none

-- `noteIDRE.MatchString(note)`, then `strconv.ParseUint(parts[1], 10, 32)`
unfoldable pub plan_note_id : List ℕ → Bool
unfolding take_hex canonical_decimal after_colon
plan_note_id value = elim (take_hex 64 value) [
  | none ↦ false
  | some rest ↦ elim (after_colon rest) [
    | none ↦ false
    | some action ↦ canonical_decimal action && is_some (parse_uint 32 action)
  ]
]

-- internal/coordinator/types.go
unfoldable pub parse_decimal_zat : List ℕ → Option ℕ
parse_decimal_zat raw = if length raw == 0 || leading_zero raw then none else parse_uint 64 raw
