-- ===== src/Coordinator/Planning/Widen.antt =====
-- The loop that widens the change split ends of its own accord.
use juno_exchange_gateway.Coordinator.Signer.{OperationError}
use juno_exchange_gateway.Coordinator.Request.{Config, CreateRequest}
use juno_exchange_gateway.Prelude.{
  ℕ, zero, suc, ◌+◌, ◌≤◌, ◌≡◌, ◌≢◌, ◌⊎◌, inl, inr, leb, length, arith, Bool-cases, refl, Option,
  ◌<◌,
}
use juno_exchange_gateway.Coordinator.Plan.{PlanResult}
use juno_exchange_gateway.Coordinator.Planning.{
  SplitPolicy, options, PlanAnswer, planned, plan_refused, plan_failed, widen, split_policy,
}

options-limit : (p : SplitPolicy) (spends : ℕ) → options p spends ≤ p.limit
unfolding options
options-limit p spends = grind arith

-- the plan is the first one, or the planner gave it for its split in one of the calls that the loop has
abbrev pub IsPlannedFor : (ℕ → ℕ → PlanAnswer) → ℕ → PlanResult → ℕ → PlanResult → ℕ → Type 0
IsPlannedFor ask calls first start r split =
    ((r ≡ first) × (split ≡ start)) ⊎ ((step : ℕ) × (step < calls) × (ask step split ≡ planned r))

-- the split covers what the plan's notes ask for, or a call for what they ask for gave no plan
abbrev pub IsWide : (ℕ → ℕ → PlanAnswer) → ℕ → SplitPolicy → PlanResult × ℕ → Type 0
IsWide ask calls policy (r, split) =
    (options policy (length r.selected_note_ids) ≤ split)
    ⊎ ((step : ℕ) × (step < calls)
        × (split < options policy (length r.selected_note_ids))
        × ((x : PlanResult) → ask step (options policy (length r.selected_note_ids)) ≢ planned x))

pub PlanAnswer-cases :
    (x : PlanAnswer)
    → ((r : PlanResult) × (x ≡ planned r))
      ⊎ (((e : OperationError) × (x ≡ plan_refused e)) ⊎ (x ≡ plan_failed))
PlanAnswer-cases (planned r) = inl (r, refl)
PlanAnswer-cases (plan_refused e) = inr (inl (e, refl))
PlanAnswer-cases plan_failed = inr (inr refl)

split_policy-limit :
    (cfg : Config) (request : CreateRequest) (counted : Option ℕ)
    → (split_policy cfg request counted).limit ≤ cfg.change_split_max
unfolding split_policy
split_policy-limit cfg request counted = ground arith

module _ (ask : ℕ → ℕ → PlanAnswer) (policy : SplitPolicy) (calls : ℕ) (first : PlanResult)
    (start : ℕ) where
  widen_steps :
      (steps : ℕ) (r : PlanResult) (current : ℕ)
      → policy.limit ≤ steps + current
      → steps ≤ calls
      → IsPlannedFor ask calls first start r current
      → IsPlannedFor ask calls first start
          (widen ask policy steps r current).0
          (widen ask policy steps r current).1
        × IsWide ask calls policy (widen ask policy steps r current)
  unfolding widen
  widen_steps zero r current enough left from =
      (from, inl (omega (arith, enough, options-limit policy (length r.selected_note_ids))))
  widen_steps (suc steps) r current enough left from =
      let split = options policy (length r.selected_note_ids) in
      elim (Bool-cases (leb split current)) [
        | inl e ↦ rw (e, widen) (from, inl (ground arith))
        | inr e ↦
            let more : current < split = ground (arith, e) in
            let n : steps < calls = omega (arith, left) in
            elim (PlanAnswer-cases (ask steps split)) [
              | inl (x, h) ↦
                  rw (e, h, widen)
                    (widen_steps steps x split (ground arith) (omega (arith, left))
                      (inr (steps, n, h)))
              | inr (inl (x, h)) ↦
                  rw (e, h, widen) (from, inr (steps, n, more, λ y g. absurd (cc (h, g))))
              | inr (inr h) ↦
                  rw (e, h, widen) (from, inr (steps, n, more, λ y g. absurd (cc (h, g))))
            ]
      ]

-- The configured number of widenings is enough. The loop ends with the first plan or with one that the
-- planner gave for the change split it was asked for. That split is at least what the plan's notes
-- ask for, or it is less and a call for what they ask for gave no plan.
pub widen-IsWide :
    (ask : ℕ → ℕ → PlanAnswer) (cfg : Config) (request : CreateRequest) (counted : Option ℕ)
    (r after : PlanResult) (split : ℕ)
    → widen ask
        (split_policy cfg request counted)
        cfg.change_split_max
        r
        (options (split_policy cfg request counted) 1)
      ≡ (after, split)
    → IsPlannedFor ask cfg.change_split_max r
        (options (split_policy cfg request counted) 1)
        after
        split
      × IsWide ask cfg.change_split_max (split_policy cfg request counted) (after, split)
unfolding split_policy
widen-IsWide ask cfg request counted r after split h =
    let w =
      widen_steps ask (split_policy cfg request counted) cfg.change_split_max r _
        cfg.change_split_max r (options (split_policy cfg request counted) 1)
        (omega (arith, split_policy-limit cfg request counted)) (omega arith) (inl (refl, refl)) in
    rw h at w
