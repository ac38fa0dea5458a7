-- ===== src/State.antt =====
-- internal/storage/sqlite/attempts.go: the life cycle of a transaction attempt.
-- The column `state` holds one of the names below; the source spells them as strings.
pub mod Graph
use juno_exchange_gateway.Prelude.{Bool, true, false, ◌||◌, ◌&&◌, if◌then◌else◌}

pub data State : Type 0 where
  planning reserved signing signing_unknown signed broadcast mined orphaned : State
  expired_pending_reconciliation cancelled failed_unsigned released final : State

-- the position of a state in the list above, by which two states are compared
abbrev pub same_state : State → State → Bool
same_state planning planning = true
same_state reserved reserved = true
same_state signing signing = true
same_state signing_unknown signing_unknown = true
same_state signed signed = true
same_state broadcast broadcast = true
same_state mined mined = true
same_state orphaned orphaned = true
same_state expired_pending_reconciliation expired_pending_reconciliation = true
same_state cancelled cancelled = true
same_state failed_unsigned failed_unsigned = true
same_state released released = true
same_state final final = true
same_state _ _ = false

unfoldable pub terminal_attempt_state : State → Bool
terminal_attempt_state cancelled = true
terminal_attempt_state failed_unsigned = true
terminal_attempt_state released = true
terminal_attempt_state final = true
terminal_attempt_state _ = false

-- the `switch current` of `allowedAttemptTransition`
successor : State → State → Bool
successor planning next = same_state next reserved || same_state next failed_unsigned
successor reserved next = same_state next signing || same_state next failed_unsigned
successor signing next =
    same_state next reserved
    || same_state next signing_unknown
    || same_state next signed
    || same_state next failed_unsigned
successor signing_unknown next = same_state next signing || same_state next signed
successor signed next =
    same_state next broadcast
    || same_state next mined
    || same_state next orphaned
    || same_state next expired_pending_reconciliation
    || same_state next final
    || same_state next released
successor broadcast next =
    same_state next mined
    || same_state next orphaned
    || same_state next expired_pending_reconciliation
    || same_state next final
    || same_state next released
successor mined next =
    same_state next broadcast
    || same_state next orphaned
    || same_state next expired_pending_reconciliation
    || same_state next final
    || same_state next released
successor orphaned next =
    same_state next broadcast
    || same_state next mined
    || same_state next expired_pending_reconciliation
    || same_state next final
    || same_state next released
successor expired_pending_reconciliation next =
    same_state next broadcast
    || same_state next mined
    || same_state next orphaned
    || same_state next final
    || same_state next released
successor _ next = false

unfoldable pub allowed_attempt_transition : State → State → Bool
unfolding terminal_attempt_state successor
allowed_attempt_transition current next =
    if same_state current next
    then true
    else if terminal_attempt_state current
    then false
    else successor current next

unfoldable pub safe_reservation_release_transition : State → State → Bool
safe_reservation_release_transition current failed_unsigned =
    same_state current planning || same_state current reserved || same_state current signing
safe_reservation_release_transition current final =
    same_state current signed
    || same_state current broadcast
    || same_state current mined
    || same_state current orphaned
    || same_state current expired_pending_reconciliation
    || same_state current final
safe_reservation_release_transition current released =
    same_state current signed
    || same_state current broadcast
    || same_state current mined
    || same_state current orphaned
    || same_state current expired_pending_reconciliation
    || same_state current released
safe_reservation_release_transition current next = false

-- internal/coordinator/service.go, `recoverableState`; the same nine names stand in the `WHERE`
-- clauses of `RecoverableAttempts` and `ActiveAttemptsByWallet`.
unfoldable pub recoverable_state : State → Bool
recoverable_state planning = true
recoverable_state reserved = true
recoverable_state signing = true
recoverable_state signing_unknown = true
recoverable_state signed = true
recoverable_state broadcast = true
recoverable_state mined = true
recoverable_state expired_pending_reconciliation = true
recoverable_state orphaned = true
recoverable_state _ = false
