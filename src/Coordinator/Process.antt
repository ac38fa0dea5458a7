-- ===== src/Coordinator/Process.antt =====
-- internal/coordinator/service.go, `process`: what a worker does with an attempt from its queue.
-- `StepWorld` is what happens around one round of its loop; a cancelled context is not modelled.
pub mod Reaches
use juno_exchange_gateway.Prelude.{
  ℕ, zero, suc, Bool, true, false, none, some, String, if◌then◌else◌,
}
use juno_exchange_gateway.State.{
  State, planning, reserved, signing, signing_unknown, signed, broadcast, mined, orphaned,
  expired_pending_reconciliation,
}
use juno_exchange_gateway.Db.{Attempt, Db, find_attempt}
use juno_exchange_gateway.Coordinator.Plan.{PlanResult}
use juno_exchange_gateway.Coordinator.Signer.{Answer}
use juno_exchange_gateway.Coordinator.Signing.{Env, sign_attempt}
use juno_exchange_gateway.Coordinator.Planning.{PlanWorld, plan_attempt}
use juno_exchange_gateway.Coordinator.Reconcile.{Answers, reconcile_attempt}

pub record StepWorld : Type 0 where
  -- what others leave of the store before the round
  pub before : Db → Db
  pub planning : PlanWorld
  pub signer : String → PlanResult → Answer
  pub signing_others : Db → Db
  pub answers : Answers
  pub now : ℕ

pub data Phase : Type 0 where
  to_plan to_sign to_reconcile at_rest : Phase

-- the `switch attempt.State`
phase : State → Phase
phase planning = to_plan
phase reserved = to_sign
phase signing = to_sign
phase signing_unknown = to_sign
phase signed = to_reconcile
phase broadcast = to_reconcile
phase mined = to_reconcile
phase expired_pending_reconciliation = to_reconcile
phase orphaned = to_reconcile
phase _ = at_rest

-- one round: whether the loop goes on, and the tables
round_of : Env → StepWorld → Phase → Attempt → Db → Bool × Db
round_of env w to_plan a db = plan_attempt env w.planning a w.now db
round_of env w to_sign a db = sign_attempt env w.signer w.signing_others a w.now db
round_of env w to_reconcile a db = (false, reconcile_attempt env.cfg a w.answers w.now db)
round_of env w at_rest a db = (false, db)

process_round : Env → StepWorld → String → Db → Bool × Db
process_round env w id db = elim (find_attempt id db.attempts) [
  | none ↦ (false, db)
  | some a ↦ round_of env w (phase a.state) a db
]

-- the loop, of which `k` rounds are left
unfoldable pub process_steps : Env → (ℕ → StepWorld) → String → ℕ → Db → Db
unfolding phase round_of process_round
process_steps env w id zero db = db
process_steps env w id (suc k) db = elim (process_round env (w k) id ((w k).before db)).0 [
  | true ↦ process_steps env w id k (process_round env (w k) id ((w k).before db)).1
  | false ↦ (process_round env (w k) id ((w k).before db)).1
]

-- `process`; `sealed` is the answer of `CoordinatorRecoverySealed`, `none` if it failed
unfoldable pub process : Env → (ℕ → StepWorld) → Bool → String → Db → Db
process env w sealed id db = if sealed then db else process_steps env w id 3 db
