-- ===== src/Gateway/Cursor.antt =====
-- internal/api/cursor.go. Texts are lists of bytes. base64, SHA-256's HMAC and JSON are parameters.
-- Every error other than the two named ones is `invalid`. A position is at least 0 in the model: the
-- code refuses a negative one.
pub mod RoundTrip
use juno_exchange_gateway.Prelude.{
  Bool, List, Option, [], false, if◌then◌else◌, none, not, some, true, ℕ, ◌&&◌, ◌++◌, ◌==◌, ◌∷◌,
}

-- bytes that are compared as a whole
unfoldable pub bytes_eq : List ℕ → List ℕ → Bool
bytes_eq [] [] = true
bytes_eq [] (y ∷ ys) = false
bytes_eq (x ∷ xs) [] = false
bytes_eq (x ∷ xs) (y ∷ ys) = (x == y) && bytes_eq xs ys

pub record CursorPayload : Type 0 where
  pub version : ℕ
  pub wallet_id : List ℕ
  pub epoch : List ℕ
  pub filter : List ℕ
  pub position : ℕ

pub data CursorError : Type 0 where
  invalid : CursorError
  reset_required : CursorError
  filter_mismatch : CursorError

pub data Decoded : Type 0 where
  at_position : ℕ → Decoded
  refused : CursorError → Decoded

-- what lies before and behind the first `.`
unfoldable pub split_dot : List ℕ → Option (List ℕ × List ℕ)
split_dot [] = none
split_dot (c ∷ cs) =
    let rest = split_dot cs in
    if c == b'.'
    then some ([], cs)
    else elim rest [ none ↦ none | some parts ↦ some (c ∷ parts.0, parts.1) ]

-- the two parts, neither of them empty
unfoldable pub cursor_parts : List ℕ → Option (List ℕ × List ℕ)
cursor_parts raw = elim (split_dot raw) [
  | none ↦ none
  | some ([], b) ↦ none
  | some (x ∷ xs, []) ↦ none
  | some (x ∷ xs, y ∷ ys) ↦ some (x ∷ xs, y ∷ ys)
]

-- The libraries the codec calls.
pub record Codec : Type 0 where
  pub b64 : List ℕ → List ℕ
  pub unb64 : List ℕ → Option (List ℕ)
  pub mac : List ℕ → List ℕ
  pub marshal : CursorPayload → List ℕ
  pub unmarshal : List ℕ → Option CursorPayload

unfoldable pub encode : Codec → List ℕ → List ℕ → List ℕ → ℕ → List ℕ
encode c wallet_id epoch filter position =
    let payload = c.marshal (record {
      version = 2;
      wallet_id = wallet_id;
      epoch = epoch;
      filter = filter;
      position = position;
    }) in
    c.b64 payload ++ b'.' ∷ c.b64 (c.mac payload)

-- what the signed payload must agree with
unfoldable pub check_payload : CursorPayload → List ℕ → List ℕ → List ℕ → Decoded
check_payload p wallet_id epoch filter =
    if not (bytes_eq p.wallet_id wallet_id)
    then refused invalid
    else if p.version == 1
    then refused reset_required
    else if not (p.version == 2)
    then refused invalid
    else if not (bytes_eq p.epoch epoch)
    then refused reset_required
    else if not (bytes_eq p.filter filter)
    then refused filter_mismatch
    else at_position p.position

-- the payload, when the signature is the one of the codec's key
unfoldable pub signed_payload : Codec → List ℕ → Option CursorPayload
signed_payload c raw = elim (cursor_parts raw) [
  | none ↦ none
  | some parts ↦ elim (c.unb64 parts.0) [
    | none ↦ none
    | some payload ↦ elim (c.unb64 parts.1) [
      | none ↦ none
      | some signature ↦ if bytes_eq signature (c.mac payload) then c.unmarshal payload else none
    ]
  ]
]

unfoldable pub decode : Codec → List ℕ → List ℕ → List ℕ → List ℕ → Decoded
decode c [] wallet_id epoch filter = at_position 0
decode c (r ∷ rs) wallet_id epoch filter = elim (signed_payload c (r ∷ rs)) [
  | none ↦ refused invalid
  | some p ↦ check_payload p wallet_id epoch filter
]
