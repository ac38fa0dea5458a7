-- ===== src/Safety/Evolution.antt =====
-- Every store call keeps every attempt, and moves it along the life cycle.
use juno_exchange_gateway.Prelude.{
  ℕ, ◌≡◌, refl, inl, inr, some, String, str_eq, str_eq_iff, arith, Bool-cases, trim_space,
}
use juno_exchange_gateway.State.{allowed_attempt_transition, terminal_attempt_state}
use juno_exchange_gateway.Db.{Attempt, Db, find_attempt}
use juno_exchange_gateway.Attempts.Cases.{
  own_row, set_attempt_change_address_cases, begin_attempt_signing_cases,
  complete_attempt_signing_cases, cancel_attempt_cases, mark_attempt_state_cases,
  reserve_attempt_plan_cases, claim_attempt_cases,
}
use juno_exchange_gateway.Attempts.Claim.{
  inserted, with_change_address, claim_attempt, set_attempt_change_address,
}
use juno_exchange_gateway.Attempts.Reserve.{sort_strings, with_plan, Plan, reserve_attempt_plan}
use juno_exchange_gateway.Attempts.Signing.{
  to_signing, to_signed, Signed, begin_attempt_signing, complete_attempt_signing,
}
use juno_exchange_gateway.Attempts.Mark.{
  touch, marked, to_cancelled, Mark, mark_attempt_state, cancel_attempt,
}
use juno_exchange_gateway.Safety.Reach.{Step, claim, change, reserve, sign, complete, mark, cancel}
use juno_exchange_gateway.Safety.Evolves.{
  edge_allowed, edge_refl, Evolves-refl, Continues, same, updated,
}

module _ (network id : String) (a : Attempt) (db : Db)
    (here : find_attempt id db.attempts ≡ some a) where
  abbrev C : Db → Type 0
  C = Continues id a

  claim-Continues : (c : Attempt) (clock : ℕ) → C (claim_attempt c clock db).1
  unfolding find_attempt inserted
  claim-Continues c clock = claim_attempt_cases C db (same id a db here) c clock λ now fresh scoped.
      record {
        row = a;
        found = elim (Bool-cases (str_eq c.attempt_id id)) [
          | inl e ↦ let i = (str_eq_iff c.attempt_id id).0 e in absurd (cc (rw i at fresh, here))
          | inr e ↦ rw e here
        ];
        evolves = Evolves-refl a;
      }

  change-Continues :
      (other raw : String) (now : ℕ) → C (set_attempt_change_address other raw now db).1
  unfolding with_change_address
  change-Continues other raw now =
      set_attempt_change_address_cases C db (same id a db here) other raw now λ c found at.
        updated id a db here c (with_change_address (trim_space raw) now) _ found (λ x. refl) refl
          (record {
            identity_kept = refl;
            moves = edge_refl c.state;
            plan_kept = λ n. (refl, refl);
            signed_kept = λ s. (refl, refl);
          })

  reserve-Continues :
      (other : String) (p : Plan) (now : ℕ) → C (reserve_attempt_plan other network p now db).1
  unfolding with_plan
  reserve-Continues other p now =
      reserve_attempt_plan_cases C db (same id a db here) other network p now λ c rows found at h.
        updated id a db here c (with_plan p (sort_strings p.note_ids) now) _ found (λ x. refl) refl
          (record {
            identity_kept = refl;
            moves = rw at (unfold allowed_attempt_transition terminal_attempt_state in refl);
            plan_kept = λ n. absurd (n at);
            signed_kept = λ s. absurd (ground arith);
          })

  sign-Continues : (other : String) (now : ℕ) → C (begin_attempt_signing other now db).1
  unfolding to_signing
  sign-Continues other now =
      begin_attempt_signing_cases C db (same id a db here) other now λ c found at.
        updated id a db here c (to_signing now) _ found (λ x. refl) refl
          (record {
            identity_kept = refl;
            moves = rw at (unfold allowed_attempt_transition terminal_attempt_state in refl);
            plan_kept = λ n. (refl, refl);
            signed_kept = λ s. (refl, refl);
          })

  complete-Continues :
      (other : String) (r : Signed) (now : ℕ) → C (complete_attempt_signing other r now db).1
  unfolding to_signed
  complete-Continues other r now =
      complete_attempt_signing_cases C db (same id a db here) other r now λ c found at.
        updated id a db here c (to_signed r now) _ found (λ x. refl) refl
          (record {
            identity_kept = refl;
            moves = unfold allowed_attempt_transition terminal_attempt_state in ground arith;
            plan_kept = λ n. (refl, refl);
            signed_kept = λ s. absurd (ground arith);
          })

  cancel-Continues : (other : String) (now : ℕ) → C (cancel_attempt other now db).1
  unfolding to_cancelled
  cancel-Continues other now = cancel_attempt_cases C db (same id a db here) other now λ c found at.
      updated id a db here c (to_cancelled now) _ found (λ x. refl) refl
        (record {
          identity_kept = refl;
          moves = ground arith;
          plan_kept = λ n. (refl, refl);
          signed_kept = λ s. (refl, refl);
        })

  mark-Continues : (other : String) (m : Mark) (now : ℕ) → C (mark_attempt_state other m now db).1
  unfolding touch marked
  mark-Continues other m now =
      mark_attempt_state_cases C db (same id a db here) other m now
        (λ c s found to at.
          updated id a db here c (touch now) _ (own_row other db.attempts c found) (λ x. refl) refl
            (record {
              identity_kept = refl;
              moves = edge_refl c.state;
              plan_kept = λ n. (refl, refl);
              signed_kept = λ s. (refl, refl);
            }))
        (λ c s found to al safe.
          updated id a db here c (marked s m now) _ (own_row other db.attempts c found) (λ x. refl)
            refl
            (record {
              identity_kept = refl;
              moves = edge_allowed c.state s al;
              plan_kept = λ n. (refl, refl);
              signed_kept = λ s. (refl, refl);
            }))

  -- A store call keeps every attempt: its request and identity, its plan once it has left
  -- `planning`, its signed transaction once that is stored; its state moves along an edge.
  pub Step-Continues : {after : Db} → Step network db after → C after
  Step-Continues (claim c clock) = claim-Continues c clock
  Step-Continues (change i raw now) = change-Continues i raw now
  Step-Continues (reserve i p now) = reserve-Continues i p now
  Step-Continues (sign i now) = sign-Continues i now
  Step-Continues (complete i r now) = complete-Continues i r now
  Step-Continues (mark i m now p n) = mark-Continues i m now
  Step-Continues (cancel i now) = cancel-Continues i now
