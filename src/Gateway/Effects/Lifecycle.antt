-- ===== src/Gateway/Effects/Lifecycle.antt =====
-- internal/api/wallet_effects.go: `reachedRequiredConfirmations`, `requireOnlyLifecycleFields` and
-- `validateLifecycle`.
use juno_exchange_gateway.Gateway.Effects.{
  event, confirmed, unconfirmed, orphaned, expired, Payload, PayloadStatus, Stage, given_as,
  is_given, value_or_zero,
}
use juno_exchange_gateway.Prelude.{
  Bool, Option, String, false, if◌then◌else◌, leb, ltb, none, not, some, str_eq, true, ℕ, ◌&&◌, ◌+◌,
  ◌-◌, ◌==◌, ◌||◌,
}

-- `reachedRequiredConfirmations`
unfoldable pub reached_required_confirmations : ℕ → ℕ → ℕ → Bool
reached_required_confirmations block_height confirmed_height required =
    if ltb confirmed_height block_height || ltb required 1
    then false
    else leb (required - 1) (confirmed_height - block_height)

is_confirmed_stage : Stage → Bool
is_confirmed_stage confirmed = true
is_confirmed_stage s = false

is_unconfirmed_stage : Stage → Bool
is_unconfirmed_stage unconfirmed = true
is_unconfirmed_stage s = false

is_orphaned_stage : Stage → Bool
is_orphaned_stage orphaned = true
is_orphaned_stage s = false

-- `requireOnlyLifecycleFields`
unfoldable pub only_lifecycle_fields : Payload → Stage → Bool
unfolding is_confirmed_stage is_unconfirmed_stage is_orphaned_stage
only_lifecycle_fields p s =
    (is_confirmed_stage s
      || not (is_given p.confirmed_height) && not (is_given p.required_confirmations))
    && (is_unconfirmed_stage s
        || not (is_given p.rollback_height) && not (is_given p.previous_confirmed_height))
    && (is_orphaned_stage s || not (is_given p.orphaned_at_height))

-- `payload.RequiredConfirmations != nil && *payload.RequiredConfirmations != requiredConfirmations`
other_required : Option ℕ → ℕ → Bool
other_required none required = false
other_required (some n) required = not (n == required)

unfoldable pub previous_valid : Option ℕ → ℕ → ℕ → ℕ → Bool
previous_valid none at block required = false
previous_valid (some previous) at block required =
    ltb at previous && reached_required_confirmations block previous required

-- `validateLifecycle` for a block height, the status' state and its confirmations
unfoldable pub lifecycle_at : Stage → ℕ → Payload → ℕ → String → ℕ → ℕ → Bool
unfolding other_required previous_valid
lifecycle_at event at p block state confirmations required =
    str_eq state "confirmed" && (at == block) && (confirmations == 1)
lifecycle_at confirmed at p block state confirmations required =
    str_eq state "confirmed"
    && given_as p.required_confirmations required
    && given_as p.confirmed_height at
    && leb block at
    && (confirmations == at - block + 1)
    && leb required confirmations
lifecycle_at unconfirmed at p block state confirmations required =
    str_eq state "confirmed"
    && given_as p.rollback_height at
    && leb block at
    && previous_valid p.previous_confirmed_height at block required
    && not (other_required p.required_confirmations required)
    && (confirmations == at - block + 1)
    && ltb confirmations required
lifecycle_at orphaned at p block state confirmations required =
    str_eq state "orphaned"
    && ltb at block
    && given_as p.orphaned_at_height at
    && (confirmations == 0)
lifecycle_at expired at p block state confirmations required = false

-- `validateLifecycle`
unfoldable pub valid_lifecycle : Stage → ℕ → Payload → PayloadStatus → String → ℕ → Bool
valid_lifecycle s at p status state required = elim p.height [
  | none ↦ false
  | some block ↦
      lifecycle_at s at p block state (value_or_zero status.confirmations) required
      && only_lifecycle_fields p s
]
