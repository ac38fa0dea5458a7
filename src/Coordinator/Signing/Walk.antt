-- ===== src/Coordinator/Signing/Walk.antt =====
-- The paths through `signAttempt`. A property is followed along them: it is `Q` until the attempt is
-- marked `signing`, `R` while the signer is asked, and `Q` again in the end.
use juno_exchange_gateway.State.Graph.{same_state_eq}
use juno_exchange_gateway.Prelude.{
  ℕ, ◌≡◌, Bool, true, false, none, some, String, arith, Option-cases, Bool-cases, inl, inr, ◌⊎◌,
  refl,
}
use juno_exchange_gateway.State.{reserved, same_state, State, signing, signing_unknown}
use juno_exchange_gateway.Db.{Attempt, Db, Outcome, ok, err, find_attempt, StoreError}
use juno_exchange_gateway.Db.Rows.{find_attempt-id}
use juno_exchange_gateway.Attempts.Signing.{
  begin_attempt_signing, complete_attempt_signing, begin_for,
}
use juno_exchange_gateway.Coordinator.Request.{Wallet, CreateRequest}
use juno_exchange_gateway.Coordinator.Plan.{PlanResult, validate_signer_result, SignerResult}
use juno_exchange_gateway.Coordinator.Signer.{OperationError, Answer, signature, refused, failed}
use juno_exchange_gateway.Coordinator.Signing.{
  Env, decoded, undecodable, decode_request, stored_plan, uncertain, sign_attempt, on_answer,
  sign_stored, on_bad_plan, on_refused, on_signature, stored_result, mark_signing_unknown,
  mark_reserved, fail_unsigned, fail_unsigned_with, Decoded, on_failed,
}

-- the row that `BeginAttemptSigning` returns is the one asked for
pub begin-id :
    (id : String) (now : ℕ) (db : Db) (row : Attempt)
    → (begin_attempt_signing id now db).0 ≡ ok row
    → row.attempt_id ≡ id
unfolding begin_attempt_signing
begin-id id now db row h = elim (Option-cases (find_attempt id db.attempts)) [
  | inl e ↦ absurd (ground arith)
  | inr (a, e) ↦ ground (arith, find_attempt-id id db.attempts a e)
]

begin_for-plan :
    (s : State) (now : ℕ) (a row : Attempt) (db : Db)
    → (begin_for s now a db).0 ≡ ok row
    → row.plan_json ≡ a.plan_json
unfolding begin_for
begin_for-plan signing now a row db h = ground arith
begin_for-plan signing_unknown now a row db h = ground arith
begin_for-plan reserved now a row db h = ground arith
begin_for-plan s now a row db h = absurd (ground arith)

-- its plan is the one that is on record
begin-plan :
    (id : String) (now : ℕ) (db : Db) (row : Attempt)
    → (begin_attempt_signing id now db).0 ≡ ok row
    → (stored : Attempt) × (find_attempt id db.attempts ≡ some stored)
      × (row.plan_json ≡ stored.plan_json)
unfolding begin_attempt_signing
begin-plan id now db row h = elim (Option-cases (find_attempt id db.attempts)) [
  | inl e ↦ absurd (ground arith)
  | inr (a, e) ↦ (a, e, begin_for-plan a.state now a row db (ground arith))
]

pub Outcome-cases {ℓ} :
    {A : Type ℓ} (o : Outcome A) → ((a : A) × (o ≡ ok a)) ⊎ ((e : StoreError) × (o ≡ err e))
Outcome-cases (ok a) = inl (a, refl)
Outcome-cases (err e) = inr (e, refl)

Answer-cases :
    (x : Answer)
    → ((r : SignerResult) × (x ≡ signature r))
      ⊎ (((e : OperationError) × (x ≡ refused e)) ⊎ (x ≡ failed))
Answer-cases (signature r) = inl (r, refl)
Answer-cases (refused e) = inr (inl (e, refl))
Answer-cases failed = inr (inr refl)

pub Decoded-cases :
    (x : Decoded)
    → ((r : CreateRequest) × (w : Wallet) × (x ≡ decoded r w))
      ⊎ ((message : String) × (x ≡ undecodable message))
Decoded-cases (decoded r w) = inl (r, w, refl)
Decoded-cases (undecodable message) = inr (message, refl)

-- the stored request decodes, and the stored plan is the one that was reserved for it
pub record Asked (env : Env) (a : Attempt) (request : CreateRequest) (p : PlanResult) : Type 0 where
  pub wallet : Wallet
  pub request_eq : decode_request env a ≡ decoded request wallet
  pub plan_eq : stored_plan env a request wallet ≡ some p

abbrev pub with_bytes : String → PlanResult → PlanResult
with_bytes bytes p = record p { bytes = bytes }

pub record Walk (Q R : Db → Type 0) (env : Env) (signer : String → PlanResult → Answer)
    (others : Db → Db) (a : Attempt) (now : ℕ) (start : Db) : Type 0 where
  pub unknown :
      (code message : String) (retryable : Bool) (db : Db)
      → Q db
      → Q (mark_signing_unknown a.attempt_id code message retryable now db)
  pub bad_plan :
      (request : CreateRequest) (wallet : Wallet) (code message : String) (db : Db)
      → decode_request env a ≡ decoded request wallet
      → stored_plan env a request wallet ≡ none
      → a.state ≡ reserved
      → Q db
      → Q (fail_unsigned a.attempt_id code message now db)
  pub begin_err : (db : Db) → Q db → Q (begin_attempt_signing a.attempt_id now db).1
  pub begin_ok :
      (row : Attempt) (db : Db)
      → (begin_attempt_signing a.attempt_id now db).0 ≡ ok row
      → Q db
      → R (begin_attempt_signing a.attempt_id now db).1
  pub other : (db : Db) → R db → R (others db)
  pub asked_unknown :
      (code message : String) (retryable : Bool) (db : Db)
      → R db
      → Q (mark_signing_unknown a.attempt_id code message retryable now db)
  pub asked_again :
      (code message : String) (db : Db)
      → uncertain a ≡ false
      → R db
      → Q (mark_reserved a.attempt_id code message now db)
  pub asked_failed :
      (e : OperationError) (p : PlanResult) (db : Db)
      → uncertain a ≡ false
      → signer a.attempt_id p ≡ refused e
      → e.outcome_unknown ≡ false
      → e.retryable ≡ false
      → R db
      → Q (fail_unsigned_with a.attempt_id e.code e.message false now db)
  pub complete :
      (request : CreateRequest) (p : PlanResult) (stored : Attempt) (r : SignerResult) (db : Db)
      → Asked env a request p
      → find_attempt a.attempt_id start.attempts ≡ some stored
      → signer a.attempt_id (with_bytes stored.plan_json p) ≡ signature r
      → validate_signer_result r p.output_count ≡ true
      → R db
      → Q (complete_attempt_signing a.attempt_id (stored_result a request r) now db).1

module _ (Q R : Db → Type 0) (env : Env) (signer : String → PlanResult → Answer) (others : Db → Db)
    (a : Attempt) (now : ℕ) (start : Db) (walk : Walk Q R env signer others a now start) where
  on_refused_walk :
      (e : OperationError) (p : PlanResult) (db : Db)
      → signer a.attempt_id p ≡ refused e
      → R db
      → Q (on_refused (uncertain a) a.attempt_id e now db)
  unfolding on_refused
  on_refused_walk e p db h r = elim (Bool-cases (uncertain a)) [
    | inl u ↦ rw (u, on_refused) (walk.asked_unknown e.code e.message e.retryable db r)
    | inr u ↦ elim (Bool-cases e.outcome_unknown) [
      | inl k ↦ rw (u, k, on_refused) (walk.asked_unknown e.code e.message e.retryable db r)
      | inr k ↦ elim (Bool-cases e.retryable) [
        | inl t ↦ rw (u, k, t, on_refused) (walk.asked_again e.code e.message db u r)
        | inr t ↦ rw (u, k, t, on_refused) (walk.asked_failed e p db u h k t r)
      ]
    ]
  ]

  on_failed_walk : (db : Db) → R db → Q (on_refused (uncertain a) a.attempt_id on_failed now db)
  unfolding on_refused on_failed
  on_failed_walk db r =
      let v =
        walk.asked_unknown "signer_unavailable" "signer result is unknown; notes remain reserved"
          true db r in
      ground (arith, v)

  on_signature_walk :
      (request : CreateRequest) (p : PlanResult) (stored : Attempt) (r : SignerResult) (db : Db)
      → Asked env a request p
      → find_attempt a.attempt_id start.attempts ≡ some stored
      → signer a.attempt_id (with_bytes stored.plan_json p) ≡ signature r
      → R db
      → Q (on_signature env a request a.attempt_id (with_bytes stored.plan_json p) r now db).1
  unfolding on_signature
  on_signature_walk request p stored r db asked f h v =
      elim (Bool-cases (validate_signer_result r p.output_count)) [
        | inl valid ↦
            let done = walk.complete request p stored r db asked f h valid v in ground (arith, done)
        | inr refusal ↦
            rw (refusal, on_signature)
              (walk.asked_unknown "signer_invalid_response" (env.mapping_error r p.output_count)
                true db v)
      ]

  on_answer_walk :
      (request : CreateRequest) (p : PlanResult) (stored : Attempt) (db : Db)
      → Asked env a request p
      → find_attempt a.attempt_id start.attempts ≡ some stored
      → R db
      → Q
          (on_answer env a request a.attempt_id
            (with_bytes stored.plan_json p)
            (signer a.attempt_id (with_bytes stored.plan_json p))
            now
            db).1
  unfolding on_answer
  on_answer_walk request p stored db asked f v =
      elim (Answer-cases (signer a.attempt_id (with_bytes stored.plan_json p))) [
        | inl (r, e) ↦ rw (e, on_answer) (on_signature_walk request p stored r db asked f e v)
        | inr (inl (x, e)) ↦
            rw (e, on_answer) (on_refused_walk x (with_bytes stored.plan_json p) db e v)
        | inr (inr e) ↦ rw (e, on_answer) (on_failed_walk db v)
      ]

  sign_stored_walk :
      (request : CreateRequest) (p : PlanResult)
      → Asked env a request p
      → Q start
      → Q (sign_stored env signer others a request p now start).1
  unfolding sign_stored
  sign_stored_walk request p asked v =
      elim (Outcome-cases (begin_attempt_signing a.attempt_id now start).0) [
        | inr (e, h) ↦ rw (h, sign_stored) (walk.begin_err start v)
        | inl (row, h) ↦
            let i = begin-id a.attempt_id now start row h in
            let (stored, f, e) = begin-plan a.attempt_id now start row h in
            rw (h, sign_stored, i, e)
              (on_answer_walk request p stored _ asked f
                (walk.other _ (walk.begin_ok row start h v)))
      ]

  on_bad_plan_walk :
      (request : CreateRequest) (wallet : Wallet) (db : Db)
      → decode_request env a ≡ decoded request wallet
      → stored_plan env a request wallet ≡ none
      → Q db
      → Q (on_bad_plan a now db)
  unfolding on_bad_plan
  on_bad_plan_walk request wallet db d n v = elim (Bool-cases (same_state a.state reserved)) [
    | inl e ↦
        rw (e, on_bad_plan)
          (walk.bad_plan request wallet _ _ db d n (same_state_eq a.state reserved e) v)
    | inr e ↦ rw (e, on_bad_plan) (walk.unknown _ _ false db v)
  ]

  pub sign_attempt_walk : Q start → Q (sign_attempt env signer others a now start).1
  unfolding sign_attempt
  sign_attempt_walk v = elim (Decoded-cases (decode_request env a)) [
    | inr (message, e) ↦ rw (e, sign_attempt) (walk.unknown _ message false start v)
    | inl (request, wallet, e) ↦ elim (Option-cases (stored_plan env a request wallet)) [
      | inl n ↦ rw (e, n, sign_attempt) (on_bad_plan_walk request wallet start e n v)
      | inr (p, n) ↦
          rw (e, n, sign_attempt)
            (sign_stored_walk request p (record { wallet = wallet; request_eq = e; plan_eq = n }) v)
    ]
  ]
