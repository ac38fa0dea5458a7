-- ===== src/Gateway/Requests.antt =====
-- internal/api/api.go: the patterns that a request's identifiers match, and `decodeJSON`. What
-- `net/http`, `mime` and `encoding/json` find in a request is the argument `Body`.
use juno_exchange_gateway.Gateway.Response.{fail_with, Response, data_of}
use juno_exchange_gateway.Domain.Hex.{is_digit, is_lower_hex, is_lower_hex64, codes}
use juno_exchange_gateway.Domain.Hex.{codes}
use juno_exchange_gateway.Prelude.{
  Bool, List, Option, String, [], all, false, if◌then◌else◌, is_empty, leb, length, ltb, none, not,
  some, true, ℕ, ◌%◌, ◌&&◌, ◌+◌, ◌==◌, ◌||◌, ◌∷◌,
}

-- what `strings.EqualFold` takes for the same: the letters of ASCII, the long s and the Kelvin sign
fold_code : ℕ → ℕ
fold_code c =
    if leb b'A' c && leb c b'Z'
    then c + 32
    else if c == 383
    then b's'
    else if c == 8490
    then b'k'
    else c

-- `strings.EqualFold(s, t)` for a `t` of ASCII letters in lower case
fold_matches : List ℕ → List ℕ → Bool
fold_matches [] [] = true
fold_matches [] (d ∷ ds) = false
fold_matches (c ∷ cs) [] = false
fold_matches (c ∷ cs) (d ∷ ds) = (fold_code c == d) && fold_matches cs ds

unfoldable pub equal_fold : String → String → Bool
unfolding fold_code fold_matches
equal_fold s t = fold_matches (codes s) (codes t)

is_alphanumeric : ℕ → Bool
is_alphanumeric c = is_digit c || leb b'a' c && leb c b'z' || leb b'A' c && leb c b'Z'

-- one alphanumeric character, and behind it at most `n` that are alphanumeric or pass `p`
unfoldable pub is_name : ℕ → (ℕ → Bool) → List ℕ → Bool
unfolding is_alphanumeric
is_name n p [] = false
is_name n p (c ∷ cs) =
    is_alphanumeric c && leb (length cs) n && all (λ d. is_alphanumeric d || p d) cs

-- `walletIDPattern`
unfoldable pub is_wallet_id : String → Bool
is_wallet_id s = is_name 63 (λ c. c == b'.' || c == b'_' || c == b'-') (codes s)

-- `idempotencyPattern`
unfoldable pub is_idempotency_key : String → Bool
is_idempotency_key s =
    is_name 127 (λ c. c == b'.' || c == b'_' || c == b':' || c == b'/' || c == b'-') (codes s)

-- `txIDPattern` and `eventEpochPattern`
unfoldable pub is_txid : String → Bool
is_txid s = is_lower_hex64 (codes s)

-- The two tests on `raw_tx_hex`, which are answered alike: not empty, of even length, and lower-case
-- hexadecimal digits.
unfoldable pub is_raw_tx_hex : String → Bool
is_raw_tx_hex s = not (is_empty s) && (length (codes s) % 2 == 0) && all is_lower_hex (codes s)

-- what the JSON decoder finds in the body: more bytes than the limit, no document of the documented
-- fields, or one, with something behind it or not
pub data Document {ℓ} (A : Type ℓ) : Type ℓ where
  oversized : Document A
  malformed : Document A
  document : A → Bool → Document A

pub record Body {ℓ} (A : Type ℓ) : Type ℓ where
  pub media_type : Option String
  pub content_length : Option ℕ
  pub content : Document A

unfoldable pub exceeds : Option ℕ → ℕ → Bool
exceeds none limit = false
exceeds (some n) limit = ltb limit n

-- `decodeJSON`, and `writeDecodeError` of its errors
unfoldable pub decode_json {ℓ} : {A : Type ℓ} → ℕ → Body A → Response A
unfolding exceeds
decode_json limit b = elim b.media_type [
  | none ↦ fail_with 400 "invalid_request" false
  | some media ↦
      if not (equal_fold media "application/json")
      then fail_with 400 "invalid_request" false
      else if exceeds b.content_length limit
      then fail_with 413 "invalid_request" false
      else elim b.content [
        | oversized ↦ fail_with 413 "invalid_request" false
        | malformed ↦ fail_with 400 "invalid_request" false
        | document a trailing ↦
            if trailing then fail_with 400 "invalid_request" false else data_of 200 a
      ]
]
