-- ===== src/Coordinator/Planning/Reaches.antt =====
-- Planning is a sequence of the store calls of which the safety of reservations speaks.
use juno_exchange_gateway.Prelude.{
  ℕ, zero, suc, refl, Bool, true, false, List, String, arith, Option-cases, Bool-cases, inl, inr,
  is_empty, str_eq,
}
use juno_exchange_gateway.State.{planning, failed_unsigned, same_state}
use juno_exchange_gateway.Domain.Network.{network_name}
use juno_exchange_gateway.Db.{
  Attempt, Db, find_attempt, note_reservation, incomplete, state_conflict, attempt_list_limit,
  invalid_limit, database,
}
use juno_exchange_gateway.Attempts.Queries.{active_note_ids}
use juno_exchange_gateway.Attempts.Claim.{set_attempt_change_address}
use juno_exchange_gateway.Safety.Reach.{Reach, Reach-trans, here, next, change, reserve}
use juno_exchange_gateway.Coordinator.Request.{Wallet, CreateRequest}
use juno_exchange_gateway.Coordinator.Signer.{OperationError}
use juno_exchange_gateway.Coordinator.Signing.{
  Env, decode_request, fail_unsigned, fail_unsigned_with, record_planning_error,
}
use juno_exchange_gateway.Coordinator.Signing.Walk.{Outcome-cases, Decoded-cases}
use juno_exchange_gateway.Coordinator.Signing.Reaches.{mark-Reach}
use juno_exchange_gateway.Coordinator.Planning.{
  SplitPolicy, options, PlanAnswer, Call, first, plan_rounds, reserve_round, refuse_round,
  on_plan_error, other_plan_error, PlanWorld, plan_with_address, plan_decoded, plan_found,
  plan_attempt, reserved_message,
}
use juno_exchange_gateway.Coordinator.Planning.Widen.{PlanAnswer-cases}

module _ {network : String} {before db : Db} (now : ℕ) (r : Reach network before db) where
  fail-Reach :
      (id code message : String) (retryable : Bool)
      → Reach network before (fail_unsigned_with id code message retryable now db)
  unfolding fail_unsigned_with
  fail-Reach id code message retryable =
      mark-Reach id failed_unsigned code message retryable true now refl (λ e. absurd (cc e)) r

  planning_error-Reach :
      (id code message : String) (retryable : Bool)
      → Reach network before (record_planning_error id code message retryable now db)
  unfolding record_planning_error
  planning_error-Reach id code message retryable =
      mark-Reach id planning code message retryable false now refl (λ e. absurd (cc e)) r

  on_plan_error-Reach :
      (id : String) (e : OperationError) (excludes fundable : Bool)
      → Reach network before (on_plan_error id e excludes fundable now db)
  unfolding on_plan_error fail_unsigned
  on_plan_error-Reach id e excludes fundable =
      let f = fail-Reach id "notes_reserved" reserved_message true in
      let g = planning_error-Reach id e.code e.message e.retryable in
      let h = fail-Reach id e.code e.message false in ground (arith, f, g, h)

module _ (planner : Call → List String → ℕ → PlanAnswer) (others : ℕ → Db → Db) (network : String)
    (policy : SplitPolicy) (widenings : ℕ) (a : Attempt) (now : ℕ) (before : Db)
    (other : (k : ℕ) (d : Db) → Reach network d (others k d)) where
  plan_rounds-Reach :
      (round : ℕ) (db : Db)
      → Reach network before db
      → Reach network before (plan_rounds planner others network policy widenings a now round db).1
  unfolding plan_rounds refuse_round reserve_round
  plan_rounds-Reach zero db r = planning_error-Reach now r _ _ _ _
  plan_rounds-Reach (suc round) db r =
      let o = Reach-trans r (other round db) in
      let excluded = active_note_ids network a.wallet_id db in
      elim (PlanAnswer-cases (planner (first round) excluded (options policy 1))) [
        | inr (inl (e, h)) ↦ rw (h, plan_rounds) (on_plan_error-Reach now o _ e _ _)
        | inr (inr h) ↦ rw (h, plan_rounds) (on_plan_error-Reach now o _ other_plan_error _ _)
        | inl (p, h) ↦
            let s = next o (reserve a.attempt_id _ now) in
            let answer =
              reserve_round planner others network policy widenings a now round excluded p
                (others round db) in
            elim (Outcome-cases answer.0) [
              | inl (u, g) ↦ rw (h, g, plan_rounds) s
              | inr (note_reservation, g) ↦ rw (h, g, plan_rounds) (plan_rounds-Reach round _ s)
              | inr (incomplete, g) ↦ rw (h, g, plan_rounds) s
              | inr (state_conflict, g) ↦ rw (h, g, plan_rounds) s
              | inr (attempt_list_limit, g) ↦ rw (h, g, plan_rounds) s
              | inr (invalid_limit, g) ↦ rw (h, g, plan_rounds) s
              | inr (database, g) ↦ rw (h, g, plan_rounds) s
            ]
      ]

module _ (env : Env) (world : PlanWorld) (now : ℕ) (before : Db)
    (other : (k : ℕ) (d : Db) → Reach (network_name env.cfg.network) d (world.others k d)) where
  plan_decoded-Reach :
      (request : CreateRequest) (wallet : Wallet) (a : Attempt) (db : Db)
      → Reach (network_name env.cfg.network) before db
      → Reach
          (network_name env.cfg.network)
          before
          (plan_decoded env world request wallet a now db).1
  unfolding plan_decoded plan_with_address
  plan_decoded-Reach request wallet a db r = elim (Bool-cases (is_empty a.change_address)) [
    | inr e ↦ rw (e, plan_decoded) (plan_rounds-Reach _ _ _ _ _ a now before other _ db r)
    | inl e ↦ elim (Option-cases world.allocated) [
      | inl n ↦ rw (e, n, plan_decoded) (planning_error-Reach now r _ _ _ _)
      | inr (address, n) ↦
          let s = next r (change a.attempt_id address now) in
          elim (Outcome-cases (set_attempt_change_address a.attempt_id address now db).0) [
            | inl (u, g) ↦
                rw (e, n, g, plan_decoded) (plan_rounds-Reach _ _ _ _ _ a now before other _ _ s)
            | inr (x, g) ↦ rw (e, n, g, plan_decoded) s
          ]
    ]
  ]

  plan_found-Reach :
      (a : Attempt) (db : Db)
      → Reach (network_name env.cfg.network) before db
      → Reach (network_name env.cfg.network) before (plan_found env world a now db).1
  unfolding plan_found fail_unsigned
  plan_found-Reach a db r = elim (Bool-cases (same_state a.state planning)) [
    | inr s ↦ rw (s, plan_found) r
    | inl s ↦ elim (Bool-cases (str_eq a.error_code "notes_reserved")) [
      | inl e ↦ rw (s, e, plan_found) (fail-Reach now r _ _ _ true)
      | inr e ↦ elim (Decoded-cases (decode_request env a)) [
        | inr (m, d) ↦ rw (s, e, d, plan_found) (fail-Reach now r _ _ _ false)
        | inl (request, wallet, d) ↦
            rw (s, e, d, plan_found) (plan_decoded-Reach request wallet a db r)
      ]
    ]
  ]

  pub plan_walk-Reach :
      (initial : Attempt) (db : Db)
      → Reach (network_name env.cfg.network) before db
      → Reach (network_name env.cfg.network) before (plan_attempt env world initial now db).1
  unfolding plan_attempt
  plan_walk-Reach initial db r = elim (Option-cases (find_attempt initial.attempt_id db.attempts)) [
    | inl e ↦ rw (e, plan_attempt) r
    | inr (a, e) ↦ rw (e, plan_attempt) (plan_found-Reach a db r)
  ]

-- Planning an attempt is a sequence of the store calls that keep notes apart, whatever the planner
-- answers and whatever such calls others make meanwhile.
pub plan_attempt-Reach :
    (env : Env) (world : PlanWorld) (initial : Attempt) (now : ℕ) (db : Db)
    → ((k : ℕ) (d : Db) → Reach (network_name env.cfg.network) d (world.others k d))
    → Reach (network_name env.cfg.network) db (plan_attempt env world initial now db).1
plan_attempt-Reach env world initial now db other =
    plan_walk-Reach env world now db other initial db here
