-- ===== src/Domain/Balance.antt =====
-- internal/domain/types.go: `Balance` and its `ValidFor`. The int64 fields are at least 0 in the
-- model: the code refuses negative ones. Sums wrap at 2^64.
use juno_exchange_gateway.Prelude.{
  Bool, String, arith, false, if◌then◌else◌, leb, ltb, str_eq, true, ℕ, ◌%◌, ◌&&◌, ◌+◌, ◌-◌, ◌==◌,
  ◌||◌, ◌↔◌, ◌≡◌, ◌≤◌,
}

pub record Balance : Type 0 where
  pub wallet_id : String
  pub recipient_address : String
  pub available_zat : ℕ
  pub pending_incoming_zat : ℕ
  pub pending_outgoing_zat : ℕ
  pub total_unspent_zat : ℕ
  pub min_confirmations : ℕ
  pub as_of_node_height : ℕ
  pub as_of_scanner_height : ℕ
  pub scanner_lag : ℕ

abbrev pub max_int64 : ℕ
max_int64 = 9223372036854775807

-- `+` of two values that are at least 0. The source adds int64 values, whose sum turns negative above
-- the largest int64, where this one goes on to 2^64; each sum stands behind a test of the code that
-- refuses parts whose sum is above the largest int64, and up to it the two agree.
unfoldable pub add64 : ℕ → ℕ → ℕ
add64 a b = (a + b) % 18446744073709551616

unfoldable pub balance_identity : Balance → String → String → ℕ → Bool
balance_identity b wallet_id recipient_address min_confirmations =
    str_eq b.wallet_id wallet_id
    && str_eq b.recipient_address recipient_address
    && (b.min_confirmations == min_confirmations)
    && leb b.as_of_scanner_height b.as_of_node_height
    && (b.scanner_lag == (b.as_of_node_height - b.as_of_scanner_height))

unfoldable pub balance_sums : Balance → Bool
unfolding add64
balance_sums b =
    if ltb b.total_unspent_zat b.available_zat
      || ltb b.total_unspent_zat b.pending_incoming_zat
      || ltb b.total_unspent_zat b.pending_outgoing_zat
    then false
    else if ltb (max_int64 - b.pending_incoming_zat) b.available_zat
        || ltb (max_int64 - b.pending_outgoing_zat) (add64 b.available_zat b.pending_incoming_zat)
    then false
    else add64 (add64 b.available_zat b.pending_incoming_zat) b.pending_outgoing_zat
      == b.total_unspent_zat

-- `ValidFor`
unfoldable pub balance_valid_for : Balance → String → String → ℕ → Bool
balance_valid_for b wallet_id recipient_address min_confirmations =
    balance_identity b wallet_id recipient_address min_confirmations && balance_sums b

-- The fields are int64s.
pub record IsInt64Balance (b : Balance) : Type 0 where
  pub available_bound : b.available_zat ≤ max_int64
  pub incoming_bound : b.pending_incoming_zat ≤ max_int64
  pub outgoing_bound : b.pending_outgoing_zat ≤ max_int64
  pub total_bound : b.total_unspent_zat ≤ max_int64

-- Of int64s, the tests on a balance's amounts hold exactly when the three parts add up to the total
-- as numbers: no sum overflows on the way.
pub balance_sums_iff :
    (b : Balance)
    → IsInt64Balance b
    → (balance_sums b ≡ true)
      ↔ (b.available_zat + b.pending_incoming_zat + b.pending_outgoing_zat ≡ b.total_unspent_zat)
unfolding balance_sums add64
balance_sums_iff b i =
    let a = i.available_bound in
    let c = i.incoming_bound in
    let d = i.outgoing_bound in let t = i.total_bound in ground (arith, a, c, d, t)
