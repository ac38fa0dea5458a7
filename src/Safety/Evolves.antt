-- ===== src/Safety/Evolves.antt =====
-- What one store call may make of an attempt.
use mathlib.Core.Path.{subst}
use juno_exchange_gateway.Prelude.{
  ℕ, ◌≡◌, ◌≢◌, refl, ◌∙◌, inl, inr, Bool, true, some, String, str_eq, str_eq_iff, arith, Bool-cases,
}
use juno_exchange_gateway.State.{
  State, planning, reserved, cancelled, allowed_attempt_transition, terminal_attempt_state,
}
use juno_exchange_gateway.State.Graph.{is_signed}
use juno_exchange_gateway.Db.{Attempt, Db, find_attempt, update_attempt}
use juno_exchange_gateway.Db.Rows.{find_attempt-update_self, find_attempt-update_ne}

-- the transition table, and the cancellation of an unsigned attempt
abbrev pub edge : State → State → Bool
edge planning cancelled = true
edge reserved cancelled = true
edge current to = allowed_attempt_transition current to

pub edge_allowed :
    (current to : State) → allowed_attempt_transition current to ≡ true → edge current to ≡ true
unfolding allowed_attempt_transition terminal_attempt_state
edge_allowed current to h = ground arith

pub edge_refl : (s : State) → edge s s ≡ true
unfolding allowed_attempt_transition
edge_refl s = ground arith

-- what the claim of an attempt fixes
pub record Identity : Type 0 where
  pub attempt_id : String
  pub scoped_idempotency_key : String
  pub request_digest : String
  pub principal_name : String
  pub wallet_id : String
  pub approval_reference : String
  pub request_json : String
  pub created_at : ℕ

abbrev pub identity : Attempt → Identity
identity a = record {
  attempt_id = a.attempt_id;
  scoped_idempotency_key = a.scoped_idempotency_key;
  request_digest = a.request_digest;
  principal_name = a.principal_name;
  wallet_id = a.wallet_id;
  approval_reference = a.approval_reference;
  request_json = a.request_json;
  created_at = a.created_at;
}

-- One store call later: the same attempt, with the request that was claimed. The plan is chosen
-- once, and the signed transaction is stored once.
pub record Evolves (a b : Attempt) : Type 0 where
  pub identity_kept : identity b ≡ identity a
  pub moves : edge a.state b.state ≡ true
  pub plan_kept :
      a.state ≢ planning → (b.plan_json ≡ a.plan_json) × (b.selected_note_ids ≡ a.selected_note_ids)
  pub signed_kept : is_signed a.state ≡ true → (b.txid ≡ a.txid) × (b.raw_tx_hex ≡ a.raw_tx_hex)

pub Evolves-refl : (a : Attempt) → Evolves a a
Evolves-refl a = record {
  identity_kept = refl;
  moves = edge_refl a.state;
  plan_kept = λ h. (refl, refl);
  signed_kept = λ h. (refl, refl);
}

-- The row with this ID is there, and came from `a`.
pub record Continues (id : String) (a : Attempt) (db : Db) : Type 0 where
  pub row : Attempt
  pub found : find_attempt id db.attempts ≡ some row
  pub evolves : Evolves a row

module _ (id : String) (a : Attempt) (db : Db) (here : find_attempt id db.attempts ≡ some a) where
  pub same : Continues id a db
  same = record { row = a; found = here; evolves = Evolves-refl a }

  pub updated :
      (c : Attempt) (f : Attempt → Attempt) (after : Db)
      → find_attempt c.attempt_id db.attempts ≡ some c
      → ((x : Attempt) → (f x).attempt_id ≡ x.attempt_id)
      → after.attempts ≡ update_attempt c.attempt_id f db.attempts
      → Evolves c (f c)
      → Continues id a after
  updated c f after found keep e v = elim (Bool-cases (str_eq id c.attempt_id)) [
    | inr other ↦ record {
      row = a;
      found = rw e (find_attempt-update_ne c.attempt_id id f db.attempts keep other ∙ here);
      evolves = Evolves-refl a;
    }
    | inl eq ↦
        let i = (str_eq_iff id c.attempt_id).0 eq in
        let here' : find_attempt c.attempt_id db.attempts ≡ some a = rw i at here in
        let ca : c ≡ a = cc (here', found) in
        record {
          row = f c;
          found = rw (e, i) (find_attempt-update_self c.attempt_id f db.attempts c keep found);
          evolves = subst (λ x. Evolves x (f c)) ca v;
        }
  ]
