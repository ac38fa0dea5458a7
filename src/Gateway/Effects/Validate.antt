-- ===== src/Gateway/Effects/Validate.antt =====
-- internal/api/wallet_effects.go: `validateDepositEffect`, `validateSpendEffect` and
-- `validateOutgoingEffect`.
use juno_exchange_gateway.Gateway.Requests.{is_txid}
use juno_exchange_gateway.Gateway.Effects.Lifecycle.{only_lifecycle_fields, valid_lifecycle}
use juno_exchange_gateway.Domain.Hex.{is_lower_hex, codes}
use juno_exchange_gateway.Gateway.Effects.{
  event, expired, Payload, PayloadStatus, ScannerEvent, Stage, given_as, has_hrp, is_given,
  text_given, value_or_zero, nonzero,
}
use juno_exchange_gateway.Prelude.{
  Bool, Option, String, all, false, if◌then◌else◌, is_empty, leb, length, ltb, none, not, some,
  str_eq, trim_space, true, ℕ, ◌%◌, ◌&&◌, ◌==◌, ◌||◌,
}

-- `p != nil && strings.HasPrefix(strings.TrimSpace(*p), addressHRP+"1")`
address_given : Option String → String → Bool
address_given none hrp = false
address_given (some a) hrp = has_hrp hrp (trim_space a)

-- an address that is there and not blank is on the network
address_absent_or : Option String → String → Bool
address_absent_or none hrp = true
address_absent_or (some a) hrp = is_empty (trim_space a) || has_hrp hrp (trim_space a)

-- both heights are there and the same
heights_agree : Option ℕ → Option ℕ → Bool
heights_agree none b = false
heights_agree (some n) b = given_as b n

-- `validateDepositEffect`
unfoldable pub valid_deposit :
    Stage → ScannerEvent → Payload → PayloadStatus → String → String → ℕ → Bool
unfolding address_given heights_agree
valid_deposit s e p status state hrp required =
    text_given p.origin "external"
    && is_given p.action_index
    && is_given p.amount_zatoshis
    && address_given p.recipient_address hrp
    && heights_agree p.height status.height
    && valid_lifecycle s e.height p status state required

txid_given : Option String → Bool
txid_given none = false
txid_given (some t) = is_txid t

-- a note's height is at most the spend's
note_not_later : Option ℕ → Option ℕ → Bool
note_not_later none h = false
note_not_later (some n) none = false
note_not_later (some n) (some h) = leb n h

-- `validateSpendEffect`
unfoldable pub valid_spend :
    Stage → ScannerEvent → Payload → PayloadStatus → String → String → ℕ → Bool
unfolding address_absent_or txid_given note_not_later heights_agree
valid_spend s e p status state hrp required =
    txid_given p.note_txid
    && is_given p.note_action_index
    && note_not_later p.note_height p.height
    && is_given p.amount_zatoshis
    && address_absent_or p.recipient_address hrp
    && heights_agree p.height status.height
    && valid_lifecycle s e.height p status state required

valid_scope : Option String → Bool
valid_scope none = true
valid_scope (some s) = is_empty s || str_eq s "external" || str_eq s "internal"

valid_memo : Option String → Bool
valid_memo none = true
valid_memo (some m) =
    let memo = codes (trim_space m) in
    leb (length memo) 1024 && (length memo % 2 == 0) && all is_lower_hex memo

-- an output in the mempool, or one in a block
mempool_output : ScannerEvent → Payload → PayloadStatus → Bool
mempool_output e p status =
    (e.height == 0)
    && not (is_given p.height)
    && not (nonzero status.confirmations)
    && not (is_given status.height)

mined_output : ScannerEvent → Payload → PayloadStatus → Bool
unfolding heights_agree
mined_output e p status =
    given_as p.height e.height
    && heights_agree p.height status.height
    && (value_or_zero status.confirmations == 1)

expired_before : Option ℕ → ℕ → Bool
expired_before none at = false
expired_before (some h) at = ltb h at

unfoldable pub valid_outgoing_stage :
    Stage → ScannerEvent → Payload → PayloadStatus → String → ℕ → Bool
unfolding mempool_output mined_output expired_before heights_agree
valid_outgoing_stage event e p status state required =
    (if str_eq state "mempool"
      then mempool_output e p status
      else str_eq state "confirmed" && mined_output e p status)
    && only_lifecycle_fields p event
valid_outgoing_stage expired e p status state required =
    str_eq state "expired"
    && not (is_given p.height)
    && expired_before p.expiry_height e.height
    && not (is_given status.height)
    && not (nonzero status.confirmations)
    && only_lifecycle_fields p expired
valid_outgoing_stage s e p status state required =
    heights_agree p.height status.height && valid_lifecycle s e.height p status state required

-- `validateOutgoingEffect`
unfoldable pub valid_outgoing :
    Stage → ScannerEvent → Payload → PayloadStatus → String → String → ℕ → Bool
unfolding address_given valid_scope valid_memo
valid_outgoing s e p status state hrp required =
    is_given p.action_index
    && is_given p.amount_zatoshis
    && address_given p.recipient_address hrp
    && (text_given p.ovk_scope "external" || text_given p.ovk_scope "internal")
    && valid_scope p.recipient_scope
    && valid_memo p.memo_hex
    && valid_outgoing_stage s e p status state required
