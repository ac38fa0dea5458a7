-- ===== src/Tests/Graph.antt =====
-- The transition table's theorems at single states.
use juno_exchange_gateway.Prelude.{◌≡◌, refl, true, not}
use juno_exchange_gateway.State.{
  signed, signing_unknown, broadcast, orphaned, terminal_attempt_state, allowed_attempt_transition,
  recoverable_state,
}
use juno_exchange_gateway.State.Graph.{
  recoverable-not-terminal, ◌⟶*◌, here, next, is_signed, ⟶*-signed,
}

recoverable-not-terminal_example :
    recoverable_state signing_unknown ≡ not (terminal_attempt_state signing_unknown)
recoverable-not-terminal_example = recoverable-not-terminal signing_unknown

path : signed ⟶* orphaned
unfolding allowed_attempt_transition
path = next {t = broadcast} (next {t = signed} here refl) refl

⟶*-signed_example : is_signed orphaned ≡ true
⟶*-signed_example = ⟶*-signed refl path
