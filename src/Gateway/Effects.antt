-- ===== src/Gateway/Effects.antt =====
-- internal/api/wallet_effects.go: what the scanner reports on a wallet's transactions, and the tests on
-- it. The JSON decoder is an argument: a payload is decoded or not. Heights and counts are at
-- least 0 in the model, and heights below 2^63 - 1: the code refuses negative ones, and counts blocks
-- in int64. Every error is an `invalid_response` of the scanner.
pub mod Lifecycle
pub mod Validate
pub mod Sanitize
pub mod Confirmed
use juno_exchange_gateway.Domain.Hex.{codes}
use juno_exchange_gateway.Prelude.{
  Bool, List, Option, String, [], false, if◌then◌else◌, none, not, some, str_eq, true, ℕ, ◌&&◌,
  ◌++◌, ◌==◌, ◌∷◌,
}

pub record SourceNote : Type 0 where
  pub txid : String
  pub action_index : ℕ
  pub block_height : ℕ

pub record WalletEffect : Type 0 where
  pub event_id : ℕ
  pub kind : String
  pub observed_height : ℕ
  pub observed_at : ℕ
  pub wallet_id : String
  pub txid : String
  pub state : String
  pub block_height : Option ℕ
  pub confirmations : Option ℕ
  pub required_confirmations : Option ℕ
  pub confirmed_height : Option ℕ
  pub rollback_height : Option ℕ
  pub previous_confirmed_height : Option ℕ
  pub orphaned_at_height : Option ℕ
  pub expiry_height : Option ℕ
  pub action_index : Option ℕ
  pub amount_zat : Option ℕ
  pub address : String
  pub diversifier_index : Option ℕ
  pub memo_hex : String
  pub ovk_scope : String
  pub recipient_scope : String
  pub source_note : Option SourceNote

-- `rawWalletEffectStatus`
pub record PayloadStatus : Type 0 where
  pub state : Option String
  pub height : Option ℕ
  pub confirmations : Option ℕ

-- `rawWalletEffectPayload`, without the fields that nothing reads
pub record Payload : Type 0 where
  pub version : Option String
  pub wallet_id : Option String
  pub diversifier_index : Option ℕ
  pub txid : Option String
  pub height : Option ℕ
  pub action_index : Option ℕ
  pub amount_zatoshis : Option ℕ
  pub memo_hex : Option String
  pub status : Option PayloadStatus
  pub origin : Option String
  pub recipient_address : Option String
  pub note_txid : Option String
  pub note_action_index : Option ℕ
  pub note_height : Option ℕ
  pub expiry_height : Option ℕ
  pub ovk_scope : Option String
  pub recipient_scope : Option String
  pub confirmed_height : Option ℕ
  pub required_confirmations : Option ℕ
  pub orphaned_at_height : Option ℕ
  pub rollback_height : Option ℕ
  pub previous_confirmed_height : Option ℕ

-- domain.ScannerEvent; `none` is a payload that is not one JSON value of the known fields
pub record ScannerEvent : Type 0 where
  pub id : ℕ
  pub kind : String
  pub height : ℕ
  pub payload : Option Payload
  pub created_at : ℕ

-- An event's kind is a prefix and a stage of its life.
pub data Subject : Type 0 where
  deposit spend outgoing_output : Subject

pub data Stage : Type 0 where
  event confirmed unconfirmed orphaned expired : Stage

unfoldable pub kind_of : String → Option (Subject × Stage)
kind_of k =
    if str_eq k "DepositEvent"
    then some (deposit, event)
    else if str_eq k "DepositConfirmed"
    then some (deposit, confirmed)
    else if str_eq k "DepositUnconfirmed"
    then some (deposit, unconfirmed)
    else if str_eq k "DepositOrphaned"
    then some (deposit, orphaned)
    else if str_eq k "SpendEvent"
    then some (spend, event)
    else if str_eq k "SpendConfirmed"
    then some (spend, confirmed)
    else if str_eq k "SpendUnconfirmed"
    then some (spend, unconfirmed)
    else if str_eq k "SpendOrphaned"
    then some (spend, orphaned)
    else if str_eq k "OutgoingOutputEvent"
    then some (outgoing_output, event)
    else if str_eq k "OutgoingOutputConfirmed"
    then some (outgoing_output, confirmed)
    else if str_eq k "OutgoingOutputUnconfirmed"
    then some (outgoing_output, unconfirmed)
    else if str_eq k "OutgoingOutputOrphaned"
    then some (outgoing_output, orphaned)
    else if str_eq k "OutgoingOutputExpired"
    then some (outgoing_output, expired)
    else none

-- `p != nil`
abbrev pub is_given {ℓ} : {A : Type ℓ} → Option A → Bool
is_given none = false
is_given (some a) = true

-- `p != nil && *p == n`
unfoldable pub given_as : Option ℕ → ℕ → Bool
given_as none n = false
given_as (some m) n = m == n

-- `p != nil && *p == s`
unfoldable pub text_given : Option String → String → Bool
text_given none s = false
text_given (some t) s = str_eq t s

-- `valueOrZero`
unfoldable pub value_or_zero : Option ℕ → ℕ
value_or_zero none = 0
value_or_zero (some n) = n

-- `nonzero`
unfoldable pub nonzero : Option ℕ → Bool
nonzero none = false
nonzero (some n) = not (n == 0)

unfoldable pub codes_start : List ℕ → List ℕ → Bool
codes_start s [] = true
codes_start [] (d ∷ ds) = false
codes_start (c ∷ cs) (d ∷ ds) = (c == d) && codes_start cs ds

-- `strings.HasPrefix(address, addressHRP+"1")`
unfoldable pub has_hrp : String → String → Bool
unfolding codes_start
has_hrp hrp address = codes_start (codes address) (codes hrp ++ b'1' ∷ [])

infixl 20 ◌>>=◌
abbrev pub ◌>>=◌ {ℓ ℓ'} : {A : Type ℓ} {B : Type ℓ'} → Option A → (A → Option B) → Option B
none >>= f = none
some a >>= f = f a
