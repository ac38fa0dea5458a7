-- ===== src/Coordinator/Signing/Reaches.antt =====
-- Signing is a sequence of the store calls of which the safety of reservations speaks.
use mathlib.Core.Path.{subst}
use juno_exchange_gateway.Prelude.{
  ℕ, ◌≡◌, ◌≢◌, refl, Bool, true, false, some, String, arith, Option-cases, inl, inr, ◌⊎◌,
}
use juno_exchange_gateway.State.{
  State, planning, reserved, signing, signing_unknown, failed_unsigned,
}
use juno_exchange_gateway.Db.{Attempt, Db, ok, find_attempt, update_attempt}
use juno_exchange_gateway.Db.Rows.{find_attempt-update_self, find_attempt-id}
use juno_exchange_gateway.Attempts.Signing.{to_signing, begin_attempt_signing, begin_for}
use juno_exchange_gateway.Attempts.Mark.{mark_attempt_state}
use juno_exchange_gateway.Safety.Steps.{permitted}
use juno_exchange_gateway.Safety.Reach.{Reach, Reach-trans, here, next, mark, sign, complete}
use juno_exchange_gateway.Safety.Descent.{attempt_persists}
use juno_exchange_gateway.Coordinator.Plan.{PlanResult}
use juno_exchange_gateway.Coordinator.Signer.{Answer}
use juno_exchange_gateway.Coordinator.Signing.{
  Env, sign_attempt, mark_with, mark_signing_unknown, mark_reserved, fail_unsigned,
  fail_unsigned_with,
}
use juno_exchange_gateway.Coordinator.Signing.Walk.{Walk, sign_attempt_walk}

some-permitted :
    (s t : State) (release : Bool)
    → permitted s release ≡ true
    → some s ≡ some t
    → permitted t release ≡ true
some-permitted s t release p h = let e : s ≡ t = cc in subst (λ x. permitted x release ≡ true) e p

-- One more mark with a state that the coordinator passes.
pub mark-Reach :
    {network : String} {db after : Db} (id : String) (s : State) (code message : String)
    (retryable release : Bool) (now : ℕ)
    → permitted s release ≡ true
    → (s ≡ reserved → (a : Attempt) → find_attempt id after.attempts ≡ some a → a.state ≢ planning)
    → Reach network db after
    → Reach network db
        (mark_attempt_state id (mark_with (some s) code message retryable release) now after).1
unfolding mark_with
mark-Reach {network} {db} {after} id s code message retryable release now p n r = next r (
    mark id (mark_with (some s) code message retryable release) now
      (λ t h. some-permitted s t release p h) (λ h a f. n (ground arith) a f))

-- The row is there, and past planning.
abbrev IsBegun : String → Db → Type 0
IsBegun id db = (b : Attempt) × (find_attempt id db.attempts ≡ some b) × (b.state ≢ planning)

begin_for-ok :
    (s : State) (now : ℕ) (a row : Attempt) (db : Db)
    → (begin_for s now a db).0 ≡ ok row
    → (s ≢ planning)
      × (((begin_for s now a db).1 ≡ db)
          ⊎ ((begin_for s now a db).1.attempts
              ≡ update_attempt a.attempt_id (to_signing now) db.attempts))
unfolding begin_for
begin_for-ok signing now a row db h = (λ e. absurd (cc e), inl refl)
begin_for-ok signing_unknown now a row db h = (λ e. absurd (cc e), inl refl)
begin_for-ok reserved now a row db h = (λ e. absurd (cc e), inr refl)
begin_for-ok s now a row db h = absurd (ground arith)

begin-IsBegun :
    (id : String) (now : ℕ) (db : Db) (row : Attempt)
    → (begin_attempt_signing id now db).0 ≡ ok row
    → IsBegun id (begin_attempt_signing id now db).1
unfolding begin_attempt_signing to_signing
begin-IsBegun id now db row h = elim (Option-cases (find_attempt id db.attempts)) [
  | inl e ↦ absurd (ground arith)
  | inr (a, e) ↦
      let (n, how) = begin_for-ok a.state now a row db (ground arith) in
      elim how [
        | inl same ↦ rw (e, same, begin_attempt_signing) (a, e, n)
        | inr moved ↦
            let i = find_attempt-id id db.attempts a e in
            rw (e, moved, i, begin_attempt_signing)
              (
                to_signing now a,
                find_attempt-update_self id (to_signing now) db.attempts a (λ x. refl) e,
                λ x. absurd (cc x),
              )
      ]
]

Reach-IsBegun :
    {network : String} {db after : Db} (id : String)
    → Reach network db after
    → IsBegun id db
    → IsBegun id after
Reach-IsBegun id r (a, f, n) =
    let (b, g, d) = attempt_persists id a r f in (b, g, (d.plan_kept n).0)

module _ (network : String) (before : Db) (env : Env) (signer : String → PlanResult → Answer)
    (others : Db → Db) (a : Attempt) (now : ℕ) (start : Db)
    (other : (d : Db) → Reach network d (others d)) where
  -- the calls so far, and the attempt has begun
  abbrev Begun : Db → Type 0
  Begun db = Reach network before db × IsBegun a.attempt_id db

  past :
      (db : Db)
      → IsBegun a.attempt_id db
      → (c : Attempt) → find_attempt a.attempt_id db.attempts ≡ some c
      → c.state ≢ planning
  past db (b, f, n) c g = let e : b ≡ c = cc (f, g) in subst (λ x. x.state ≢ planning) e n

  Reach-Walk : Walk (Reach network before) Begun env signer others a now start
  unfolding mark_signing_unknown mark_reserved fail_unsigned fail_unsigned_with
  Reach-Walk = record {
    unknown = λ code message retryable db r.
        mark-Reach a.attempt_id signing_unknown code message retryable false now refl
          (λ e. absurd (cc e)) r;
    bad_plan = λ request wallet code message db d n s r.
        mark-Reach a.attempt_id failed_unsigned code message false true now refl
          (λ e. absurd (cc e)) r;
    begin_err = λ db r. next r (sign a.attempt_id now);
    begin_ok =
        λ row db h r. (next r (sign a.attempt_id now), begin-IsBegun a.attempt_id now db row h);
    other = λ db r. (Reach-trans r.0 (other db), Reach-IsBegun a.attempt_id (other db) r.1);
    asked_unknown = λ code message retryable db r.
        mark-Reach a.attempt_id signing_unknown code message retryable false now refl
          (λ e. absurd (cc e)) r.0;
    asked_again = λ code message db u r.
        mark-Reach a.attempt_id reserved code message true false now refl (λ e. past db r.1) r.0;
    asked_failed = λ e p db u h k t r.
        mark-Reach a.attempt_id failed_unsigned e.code e.message false true now refl
          (λ e. absurd (cc e)) r.0;
    complete = λ request p stored r db asked f h valid v. next v.0 (complete a.attempt_id _ now);
  }

-- Signing an attempt is a sequence of the store calls that keep notes apart, whatever the signer
-- answers and whatever such calls others make meanwhile: it never marks an attempt `reserved` that
-- may still be planning.
pub sign_attempt-Reach :
    (network : String) (env : Env) (signer : String → PlanResult → Answer) (others : Db → Db)
    (a : Attempt) (now : ℕ) (db : Db)
    → ((d : Db) → Reach network d (others d))
    → Reach network db (sign_attempt env signer others a now db).1
sign_attempt-Reach network env signer others a now db other =
    sign_attempt_walk _ _ env signer others a now db
      (Reach-Walk network db env signer others a now db other) here
