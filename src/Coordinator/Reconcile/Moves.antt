-- ===== src/Coordinator/Reconcile/Moves.antt =====
-- What a transition of the coordinator does to the states of the rows.
use juno_exchange_gateway.Attempts.States.{StateIs, mark-StateIs}
use mathlib.Core.Path.{subst}
use juno_exchange_gateway.Prelude.{ℕ, ◌≡◌, inl, inr, Bool, some, String, Bool-cases, if◌then◌else◌}
use juno_exchange_gateway.State.{State, same_state}
use juno_exchange_gateway.Db.{Attempt, Db}
use juno_exchange_gateway.Coordinator.Reconcile.{transition}

some_state : (P : State → Type 0) (s t : State) → P s → some s ≡ some t → P t
some_state P s t p h = let e : s ≡ t = cc in subst P e p

pub transition-StateIs :
    (P : State → Type 0) (id : String) (a : Attempt) (s : State) (release : Bool) (now : ℕ)
    (db : Db)
    → P s
    → StateIs P id db
    → StateIs P id (transition a s release now db)
unfolding transition
transition-StateIs P id a s release now db p v = elim (Bool-cases (same_state a.state s)) [
  | inl e ↦ rw (e, if◌then◌else◌) v
  | inr e ↦
      rw (e, if◌then◌else◌)
        (mark-StateIs P id a.attempt_id _ now db (λ t h. some_state P s t p h) v)
]
