-- ===== src/State/Graph.antt =====
-- What the transition table of the attempt store allows.
use juno_exchange_gateway.Prelude.{◌≡◌, Bool, true, false, arith, not}
use juno_exchange_gateway.State.{
  State, planning, same_state, terminal_attempt_state, allowed_attempt_transition,
  recoverable_state,
}

pub same_state_eq : (s t : State) → same_state s t ≡ true → s ≡ t
same_state_eq s t h = ground arith

pub same_state_refl : (s : State) → same_state s s ≡ true
same_state_refl s = ground arith

-- A terminal state allows no transition but to itself.
pub allowed-terminal :
    (current next : State)
    → terminal_attempt_state current ≡ true
    → allowed_attempt_transition current next ≡ true
    → next ≡ current
unfolding allowed_attempt_transition terminal_attempt_state
allowed-terminal current next t h = ground arith

-- The states that the coordinator resumes are exactly those that the store does not hold terminal.
pub recoverable-not-terminal : (s : State) → recoverable_state s ≡ not (terminal_attempt_state s)
unfolding recoverable_state terminal_attempt_state
recoverable-not-terminal s = ground arith

-- `planning` is left for good.
pub allowed-planning :
    (current : State) → allowed_attempt_transition current planning ≡ true → current ≡ planning
unfolding allowed_attempt_transition terminal_attempt_state
allowed-planning current h = ground arith

-- A sequence of allowed transitions.
infix 40 ◌⟶*◌
pub data ◌⟶*◌ (s : State) : State → Type 0 where
  here : s ⟶* s
  next : {t u : State} → s ⟶* t → allowed_attempt_transition t u ≡ true → s ⟶* u

-- the states in which the signed transaction is stored
abbrev pub is_signed : State → Bool
is_signed State.signed = true
is_signed State.broadcast = true
is_signed State.mined = true
is_signed State.orphaned = true
is_signed State.expired_pending_reconciliation = true
is_signed State.released = true
is_signed State.final = true
is_signed _ = false

is_signed_step :
    (s t : State) → is_signed s ≡ true → allowed_attempt_transition s t ≡ true → is_signed t ≡ true
unfolding allowed_attempt_transition terminal_attempt_state
is_signed_step s t h a = ground arith

-- No sequence of transitions takes a signed attempt back to an unsigned state, such as
-- `cancelled` or `failed_unsigned`.
pub ⟶*-signed : {s t : State} → is_signed s ≡ true → s ⟶* t → is_signed t ≡ true
⟶*-signed h here = h
⟶*-signed h (next {t = t} {u = u} r a) = is_signed_step t u (⟶*-signed h r) a
