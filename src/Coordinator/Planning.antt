-- ===== src/Coordinator/Planning.antt =====
-- internal/coordinator/service.go, `planAttempt`, and the change split of
-- internal/coordinator/inventory.go. The planner answers each call on its own: `Call` names the call.
-- `others` is what other requests and workers leave of the store while the planner works.
-- Reading the store does not fail in this model.
pub mod Widen
pub mod Reaches
use juno_exchange_gateway.Prelude.{
  ℕ, zero, suc, ◌+◌, ◌-◌, Bool, true, false, ◌||◌, ◌&&◌, not, Option, none, some, List, [], String,
  str_eq, is_empty, ltb, leb, ◌==◌, length, min, max, if◌then◌else◌,
}
use juno_exchange_gateway.State.{planning, same_state}
use juno_exchange_gateway.Domain.Network.{network_name}
use juno_exchange_gateway.Db.{
  Attempt, Db, Outcome, ok, err, StoreError, note_reservation, find_attempt,
}
use juno_exchange_gateway.Attempts.Queries.{active_note_ids}
use juno_exchange_gateway.Attempts.Claim.{set_attempt_change_address}
use juno_exchange_gateway.Attempts.Reserve.{Plan, reserve_attempt_plan}
use juno_exchange_gateway.Coordinator.Request.{Config, Wallet, CreateRequest, is_split}
use juno_exchange_gateway.Coordinator.Plan.{PlanResult}
use juno_exchange_gateway.Coordinator.Signer.{OperationError}
use juno_exchange_gateway.Coordinator.Signing.{
  Env, Decoded, decoded, undecodable, decode_request, fail_unsigned, fail_unsigned_with,
  record_planning_error,
}

-- `changeSplitPolicy`; the deficit is `target` less `unreserved`, which may be negative
pub record SplitPolicy : Type 0 where
  pub target : ℕ
  pub unreserved : ℕ
  pub limit : ℕ

-- `options`, the number of change notes, 0 for the unset one. A negative `want` is below 2 as 0 is.
unfoldable pub options : SplitPolicy → ℕ → ℕ
options p spends =
    if ltb p.limit 2
    then 0
    else let want = (p.target + max spends 1) - p.unreserved in
      if ltb want 2 then 0 else min want p.limit

abbrev no_split : SplitPolicy
no_split = record { target = 0; unreserved = 0; limit = 0 }

-- `splitPolicy`; `counted` is the number of unreserved spendable notes, if it could be counted
unfoldable pub split_policy : Config → CreateRequest → Option ℕ → SplitPolicy
split_policy cfg request counted =
    if ltb cfg.target_notes 1 || ltb cfg.change_split_max 2 || is_split request
    then no_split
    else elim counted [
      | none ↦ no_split
      | some n ↦ record { target = cfg.target_notes; unreserved = n; limit = cfg.change_split_max }
    ]

-- `plan_failed` is an error that is no `*operationError`.
pub data PlanAnswer : Type 0 where
  planned : PlanResult → PlanAnswer
  plan_refused : OperationError → PlanAnswer
  plan_failed : PlanAnswer

-- In a round: the first plan, the wider ones, and the plan without reservations.
pub data Call : Type 0 where
  first : ℕ → Call
  wider : ℕ → ℕ → Call
  unreserved : ℕ → Call

-- The loop that widens the change split; `ask` is the planner.
unfoldable pub widen : (ℕ → ℕ → PlanAnswer) → SplitPolicy → ℕ → PlanResult → ℕ → PlanResult × ℕ
widen ask policy zero result current = (result, current)
widen ask policy (suc steps) result current =
    let split = options policy (length result.selected_note_ids) in
    elim (leb split current) [
      | true ↦ (result, current)
      | false ↦ elim (ask steps split) [
        | planned r ↦ widen ask policy steps r split
        | _ ↦ (result, current)
      ]
    ]

is_planned : PlanAnswer → Bool
is_planned (planned r) = true
is_planned _ = false

unfoldable pub plan_of_result : PlanResult → Plan
plan_of_result r = record {
  plan_json = r.bytes;
  plan_digest = r.digest;
  fee_zat = r.fee_zat;
  expiry_height = r.expiry_height;
  note_ids = r.selected_note_ids;
}

abbrev pub reserved_message : String
reserved_message =
    "eligible notes are reserved by other active attempts; retry with a new request once they are released"

-- the planner refused
on_plan_error : String → OperationError → Bool → Bool → ℕ → Db → Db
on_plan_error id e excludes fundable now db =
    if str_eq e.code "insufficient_balance" && excludes && fundable
    then fail_unsigned_with id "notes_reserved" reserved_message true now db
    else if e.retryable
    then record_planning_error id e.code e.message e.retryable now db
    else fail_unsigned id e.code e.message now db

other_plan_error : OperationError
other_plan_error = record {
  code = "planner_unavailable";
  message = "transaction planner failed";
  retryable = true;
  outcome_unknown = false;
}

module _ (planner : Call → List String → ℕ → PlanAnswer) (others : ℕ → Db → Db) (network : String)
    (policy : SplitPolicy) (widenings : ℕ) (a : Attempt) (now : ℕ) where
  -- the plan of a round, as wide as it gets
  widened : ℕ → List String → PlanResult → PlanResult
  widened round excluded r =
      (widen (λ step. planner (wider round step) excluded) policy widenings r (options policy 1)).0

  reserve_round : ℕ → List String → PlanResult → Db → Outcome (Unit {0}) × Db
  reserve_round round excluded r db =
      reserve_attempt_plan a.attempt_id network (plan_of_result (widened round excluded r)) now db

  refuse_round : ℕ → List String → OperationError → Db → Db
  refuse_round round excluded e db =
      on_plan_error a.attempt_id e (not (length excluded == 0))
        (is_planned (planner (unreserved round) [] 0)) now db

  -- The loop over the rounds, of which `round` are left.
  unfoldable pub plan_rounds : ℕ → Db → Bool × Db
  unfolding is_planned on_plan_error other_plan_error widened reserve_round refuse_round
  plan_rounds zero db = (
    false,
    record_planning_error a.attempt_id "reservation_conflict"
        "selected notes raced with another transaction; planning will retry" true now db,
  )
  plan_rounds (suc round) db =
      let excluded = active_note_ids network a.wallet_id db in
      elim (planner (first round) excluded (options policy 1)) [
        | plan_refused e ↦ (false, refuse_round round excluded e (others round db))
        | plan_failed ↦ (false, refuse_round round excluded other_plan_error (others round db))
        | planned r ↦ elim (reserve_round round excluded r (others round db)).0 [
          | ok u ↦ (true, (reserve_round round excluded r (others round db)).1)
          | err e ↦ elim e [
            | note_reservation ↦
                plan_rounds round (reserve_round round excluded r (others round db)).1
            | _ ↦ (false, (reserve_round round excluded r (others round db)).1)
          ]
        ]
      ]

-- What happens around a planning: the planner, the others at the store in each round, the count of
-- unreserved notes and the change address that is allocated, if they can be had.
pub record PlanWorld : Type 0 where
  pub planner : CreateRequest → Wallet → String → Call → List String → ℕ → PlanAnswer
  pub others : ℕ → Db → Db
  pub counted : Option ℕ
  pub allocated : Option String

module _ (env : Env) (world : PlanWorld) where
  plan_with_address : CreateRequest → Wallet → String → Attempt → ℕ → Db → Bool × Db
  plan_with_address request wallet change a now db =
      plan_rounds (world.planner request wallet change) world.others (network_name env.cfg.network)
        (split_policy env.cfg request world.counted) env.cfg.change_split_max a now
        env.cfg.max_replans db

  plan_decoded : CreateRequest → Wallet → Attempt → ℕ → Db → Bool × Db
  plan_decoded request wallet a now db =
      if not (is_empty a.change_address)
      then plan_with_address request wallet a.change_address a now db
      else elim world.allocated [
        | none ↦ (
          false,
          record_planning_error a.attempt_id "change_address_unavailable"
              "registered change address could not be allocated" true now db,
        )
        | some change ↦ elim (set_attempt_change_address a.attempt_id change now db).0 [
          | err e ↦ (false, (set_attempt_change_address a.attempt_id change now db).1)
          | ok u ↦
              plan_with_address request wallet change a now
                (set_attempt_change_address a.attempt_id change now db).1
        ]
      ]

  plan_found : Attempt → ℕ → Db → Bool × Db
  plan_found a now db =
      if not (same_state a.state planning)
      then (false, db)
      else if str_eq a.error_code "notes_reserved"
      then (false, fail_unsigned_with a.attempt_id "notes_reserved" reserved_message true now db)
      else elim (decode_request env a) [
        | undecodable message ↦
            (false, fail_unsigned a.attempt_id "stored_request_invalid" message now db)
        | decoded request wallet ↦ plan_decoded request wallet a now db
      ]

  -- `planAttempt`
  unfoldable pub plan_attempt : Attempt → ℕ → Db → Bool × Db
  unfolding plan_with_address plan_decoded plan_found
  plan_attempt initial now db = elim (find_attempt initial.attempt_id db.attempts) [
    | none ↦ (false, db)
    | some a ↦ plan_found a now db
  ]
