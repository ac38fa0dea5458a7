-- ===== src/Coordinator/Signing/Known.antt =====
-- What the states that `signAttempt` leaves rest on.
use mathlib.Core.Path.{subst}
use juno_exchange_gateway.Prelude.{ℕ, ◌≡◌, ◌≢◌, refl, Bool, true, false, none, some, String, arith}
use juno_exchange_gateway.State.{State, reserved, signing, signing_unknown, failed_unsigned}
use juno_exchange_gateway.Db.{Attempt, Db, find_attempt}
use juno_exchange_gateway.Attempts.Mark.{mark_attempt_state}
use juno_exchange_gateway.Attempts.States.{
  StateIs, mark-StateIs, begin_attempt_signing-StateIs, complete_attempt_signing-StateIs,
}
use juno_exchange_gateway.Coordinator.Request.{Wallet, CreateRequest}
use juno_exchange_gateway.Coordinator.Plan.{PlanResult, SignerResult, validate_signer_result}
use juno_exchange_gateway.Coordinator.Signer.{OperationError, Answer, signature, refused}
use juno_exchange_gateway.Coordinator.Signing.{
  Env, decoded, decode_request, stored_plan, uncertain, sign_attempt, mark_with,
  mark_signing_unknown, mark_reserved, fail_unsigned, fail_unsigned_with,
}
use juno_exchange_gateway.Coordinator.Signing.Walk.{Asked, with_bytes, Walk, sign_attempt_walk}

some_state : (P : State → Type 0) (s t : State) → P s → some s ≡ some t → P t
some_state P s t p h = let e : s ≡ t = cc in subst P e p

mark_with-StateIs :
    (P : State → Type 0) (id other : String) (s : State) (code message : String)
    (retryable release : Bool) (now : ℕ) (db : Db)
    → P s
    → StateIs P id db
    → StateIs P id
        (mark_attempt_state other (mark_with (some s) code message retryable release) now db).1
unfolding mark_with
mark_with-StateIs P id other s code message retryable release now db p v =
    mark-StateIs P id other _ now db (λ t h. some_state P s t p h) v

-- A transaction that the signer returned when it was given the plan document of the row on record,
-- and whose action mapping was accepted. The attempt's request decodes, and `plan` is the reserved
-- plan that was read for it.
pub record HasSignature (env : Env) (signer : String → PlanResult → Answer) (a : Attempt)
    (start : Db) : Type 0 where
  pub request : CreateRequest
  pub plan : PlanResult
  pub stored : Attempt
  pub result : SignerResult
  pub asked : Asked env a request plan
  pub stored_eq : find_attempt a.attempt_id start.attempts ≡ some stored
  pub answer_eq : signer a.attempt_id (with_bytes stored.plan_json plan) ≡ signature result
  pub mapping_ok : validate_signer_result result plan.output_count ≡ true

-- The signer was never called, since the stored plan is not the reserved one, or it refused for good
-- with an outcome that is known.
pub data IsUnsigned (env : Env) (signer : String → PlanResult → Answer) (a : Attempt) : Type 0 where
  bad_plan :
      (request : CreateRequest) (wallet : Wallet)
      → decode_request env a ≡ decoded request wallet
      → stored_plan env a request wallet ≡ none
      → a.state ≡ reserved
      → IsUnsigned env signer a
  rejected :
      (e : OperationError) (p : PlanResult)
      → uncertain a ≡ false
      → signer a.attempt_id p ≡ refused e
      → e.outcome_unknown ≡ false
      → e.retryable ≡ false
      → IsUnsigned env signer a

module _ (P : State → Type 0) (env : Env) (signer : String → PlanResult → Answer) (others : Db → Db)
    (a : Attempt) (now : ℕ) (db : Db) where
  states-Walk :
      P signing_unknown
      → P signing
      → (uncertain a ≡ false → P reserved)
      → (HasSignature env signer a db → P State.signed)
      → (IsUnsigned env signer a → P failed_unsigned)
      → ((db : Db) → StateIs P a.attempt_id db → StateIs P a.attempt_id (others db))
      → Walk (StateIs P a.attempt_id) (StateIs P a.attempt_id) env signer others a now db
  unfolding mark_signing_unknown mark_reserved fail_unsigned fail_unsigned_with
  states-Walk unknown began again signed_if failed_if other = record {
    unknown = λ code message retryable db v.
        mark_with-StateIs P a.attempt_id a.attempt_id signing_unknown code message retryable false
          now db unknown v;
    bad_plan = λ request wallet code message db d n s v.
        mark_with-StateIs P a.attempt_id a.attempt_id failed_unsigned code message false true now db
          (failed_if (bad_plan request wallet d n s)) v;
    begin_err = λ db v. begin_attempt_signing-StateIs P a.attempt_id a.attempt_id now db began v;
    begin_ok =
        λ row db h v. begin_attempt_signing-StateIs P a.attempt_id a.attempt_id now db began v;
    other = other;
    asked_unknown = λ code message retryable db v.
        mark_with-StateIs P a.attempt_id a.attempt_id signing_unknown code message retryable false
          now db unknown v;
    asked_again = λ code message db u v.
        mark_with-StateIs P a.attempt_id a.attempt_id reserved code message true false now db
          (again u) v;
    asked_failed = λ e p db u h k t v.
        mark_with-StateIs P a.attempt_id a.attempt_id failed_unsigned e.code e.message false true
          now db (failed_if (rejected e p u h k t)) v;
    complete = λ request p stored r d asked f h valid v.
        complete_attempt_signing-StateIs P a.attempt_id a.attempt_id _ now d
          (signed_if (record {
            request = request;
            plan = p;
            stored = stored;
            result = r;
            asked = asked;
            stored_eq = f;
            answer_eq = h;
            mapping_ok = valid;
          }))
          v;
  }

-- the attempt may be signed
abbrev pub may_be_signed : State → Bool
may_be_signed signing = true
may_be_signed signing_unknown = true
may_be_signed State.signed = true
may_be_signed s = false

-- An attempt that was read while `signing` or `signing_unknown` is not put back to `reserved` and not
-- failed by signing it again, whatever the signer answers: its rows stay signing, unknown or signed,
-- if other workers and requests keep them so.
pub sign_attempt-uncertain :
    (env : Env) (signer : String → PlanResult → Answer) (others : Db → Db) (a : Attempt) (now : ℕ)
    (db : Db)
    → uncertain a ≡ true
    → ((d : Db)
        → StateIs (λ s. may_be_signed s ≡ true) a.attempt_id d
        → StateIs (λ s. may_be_signed s ≡ true) a.attempt_id (others d))
    → StateIs (λ s. may_be_signed s ≡ true) a.attempt_id db
    → StateIs (λ s. may_be_signed s ≡ true) a.attempt_id (sign_attempt env signer others a now db).1
sign_attempt-uncertain env signer others a now db u other =
    sign_attempt_walk _ _ env signer others a now db (
      states-Walk (λ s. may_be_signed s ≡ true) env signer others a now db refl refl
        (λ n. absurd (cc (u, n))) (λ h. refl)
        (λ f. elim f [
          | bad_plan r w d n s ↦ absurd (ground arith)
          | rejected e p n h k t ↦ absurd (ground arith)
        ])
        other)

-- An attempt is found `signed` after signing, and not before, only if the signer returned a
-- transaction for the plan document that its row held before, with an accepted action mapping; other workers and requests do not
-- sign it meanwhile.
pub sign_attempt-signed :
    (env : Env) (signer : String → PlanResult → Answer) (others : Db → Db) (a : Attempt) (now : ℕ)
    (db : Db) (b : Attempt)
    → ((d : Db)
        → StateIs (λ s. s ≡ State.signed → HasSignature env signer a db) a.attempt_id d
        → StateIs (λ s. s ≡ State.signed → HasSignature env signer a db) a.attempt_id (others d))
    → StateIs (λ s. s ≢ State.signed) a.attempt_id db
    → find_attempt a.attempt_id (sign_attempt env signer others a now db).1.attempts ≡ some b
    → b.state ≡ State.signed
    → HasSignature env signer a db
sign_attempt-signed env signer others a now db b other before found =
    sign_attempt_walk _ _ env signer others a now db
      (states-Walk (λ s. s ≡ State.signed → HasSignature env signer a db) env signer others a now db
        (λ e. absurd (cc e)) (λ e. absurd (cc e)) (λ n e. absurd (cc e)) (λ h e. h)
        (λ f e. absurd (cc e)) other)
      (λ c h e. absurd (before c h e)) b found
