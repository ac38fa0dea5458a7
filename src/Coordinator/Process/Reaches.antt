-- ===== src/Coordinator/Process/Reaches.antt =====
-- A worker keeps the notes of attempts apart.
use juno_exchange_gateway.Prelude.{
  ℕ, zero, suc, Bool, true, false, String, Option-cases, Bool-cases, inl, inr,
}
use juno_exchange_gateway.Domain.Network.{network_name}
use juno_exchange_gateway.Db.{Attempt, Db, find_attempt}
use juno_exchange_gateway.Safety.Reach.{Reach, Reach-trans, here}
use juno_exchange_gateway.Coordinator.Signing.{Env}
use juno_exchange_gateway.Coordinator.Signing.Reaches.{sign_attempt-Reach}
use juno_exchange_gateway.Coordinator.Planning.Reaches.{plan_attempt-Reach}
use juno_exchange_gateway.Coordinator.Reconcile.Reaches.{reconcile_attempt-Reach}
use juno_exchange_gateway.Coordinator.Process.{
  StepWorld, Phase, to_plan, to_sign, to_reconcile, at_rest, phase, round_of, process_round,
  process_steps, process,
}

-- Whatever others do to the store around a round is a sequence of store calls.
pub record Fair (network : String) (w : StepWorld) : Type 0 where
  pub before : (d : Db) → Reach network d (w.before d)
  pub planning : (k : ℕ) (d : Db) → Reach network d (w.planning.others k d)
  pub signing : (d : Db) → Reach network d (w.signing_others d)

module _ (env : Env) where
  round_of-Reach :
      (w : StepWorld) (x : Phase) (a : Attempt) (db : Db)
      → Fair (network_name env.cfg.network) w
      → Reach (network_name env.cfg.network) db (round_of env w x a db).1
  unfolding round_of
  round_of-Reach w to_plan a db f = plan_attempt-Reach env w.planning a w.now db f.planning
  round_of-Reach w to_sign a db f =
      sign_attempt-Reach _ env w.signer w.signing_others a w.now db f.signing
  round_of-Reach w to_reconcile a db f = reconcile_attempt-Reach _ env.cfg w.answers w.now a db
  round_of-Reach w at_rest a db f = here

  process_round-Reach :
      (w : StepWorld) (id : String) (db : Db)
      → Fair (network_name env.cfg.network) w
      → Reach (network_name env.cfg.network) db (process_round env w id db).1
  unfolding process_round
  process_round-Reach w id db f = elim (Option-cases (find_attempt id db.attempts)) [
    | inl e ↦ rw (e, process_round) here
    | inr (a, e) ↦ rw (e, process_round) (round_of-Reach w (phase a.state) a db f)
  ]

  process_steps-Reach :
      (w : ℕ → StepWorld) (id : String) (k : ℕ) (db : Db)
      → ((j : ℕ) → Fair (network_name env.cfg.network) (w j))
      → Reach (network_name env.cfg.network) db (process_steps env w id k db)
  unfolding process_steps
  process_steps-Reach w id zero db f = here
  process_steps-Reach w id (suc k) db f =
      let r =
        Reach-trans ((f k).before db) (process_round-Reach (w k) id ((w k).before db) (f k)) in
      elim (Bool-cases (process_round env (w k) id ((w k).before db)).0) [
        | inl e ↦ rw (e, process_steps) (Reach-trans r (process_steps-Reach w id k _ f))
        | inr e ↦ rw (e, process_steps) r
      ]

-- All that a worker does with an attempt, in up to three rounds of planning, signing and reconciling,
-- is a sequence of the store calls that keep notes apart, whatever the planner, the signer, the node
-- and the scanner answer, if that is so of what others do meanwhile.
pub process-Reach :
    (env : Env) (w : ℕ → StepWorld) (sealed : Bool) (id : String) (db : Db)
    → ((j : ℕ) → Fair (network_name env.cfg.network) (w j))
    → Reach (network_name env.cfg.network) db (process env w sealed id db)
unfolding process
process-Reach env w true id db f = here
process-Reach env w false id db f = process_steps-Reach env w id 3 db f
