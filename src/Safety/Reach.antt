-- ===== src/Safety/Reach.antt =====
-- Every sequence of store calls that the coordinator makes, by whichever worker or request.
use juno_exchange_gateway.Prelude.{
  ℕ, ◌≡◌, true, some, List, [], String, mem, ◌≢◌, false, inl, inr, Bool-cases,
}
use juno_exchange_gateway.State.{State, planning, reserved}
use juno_exchange_gateway.Db.{Attempt, Db, find_attempt, owner}
use juno_exchange_gateway.Attempts.Claim.{claim_attempt, set_attempt_change_address}
use juno_exchange_gateway.Attempts.Reserve.{Plan, reserve_attempt_plan}
use juno_exchange_gateway.Attempts.Signing.{Signed, begin_attempt_signing, complete_attempt_signing}
use juno_exchange_gateway.Attempts.Mark.{Mark, mark_attempt_state, cancel_attempt}
use juno_exchange_gateway.Safety.Invariant.{holds, Inv, disjoint}
use juno_exchange_gateway.Safety.Steps.{
  permitted, set_attempt_change_address-Inv, begin_attempt_signing-Inv,
  complete_attempt_signing-Inv, cancel_attempt-Inv, mark_attempt_state-Inv,
  reserve_attempt_plan-Inv, claim_attempt-Inv,
}

-- One store call. `mark` is any call with a state and a release flag that the coordinator passes;
-- back to `reserved` it marks only an attempt that has left `planning`.
pub data Step (network : String) (db : Db) : Db → Type 0 where
  claim : (c : Attempt) (clock : ℕ) → Step network db (claim_attempt c clock db).1
  change :
      (id raw : String) (now : ℕ) → Step network db (set_attempt_change_address id raw now db).1
  reserve :
      (id : String) (p : Plan) (now : ℕ)
      → Step network db (reserve_attempt_plan id network p now db).1
  sign : (id : String) (now : ℕ) → Step network db (begin_attempt_signing id now db).1
  complete :
      (id : String) (r : Signed) (now : ℕ)
      → Step network db (complete_attempt_signing id r now db).1
  mark :
      (id : String) (m : Mark) (now : ℕ)
      → ((s : State) → m.state ≡ some s → permitted s m.release ≡ true)
      → (m.state ≡ some reserved
          → (a : Attempt) → find_attempt id db.attempts ≡ some a
          → a.state ≡ planning
          → ⊥)
      → Step network db (mark_attempt_state id m now db).1
  cancel : (id : String) (now : ℕ) → Step network db (cancel_attempt id now db).1

pub data Reach (network : String) (db : Db) : Db → Type 0 where
  here : Reach network db db
  next : {mid after : Db} → Reach network db mid → Step network mid after → Reach network db after

pub Reach-trans :
    {network : String} {a b c : Db} → Reach network a b → Reach network b c → Reach network a c
Reach-trans r here = r
Reach-trans r (next q s) = next (Reach-trans r q) s

pub Step-Inv :
    {network : String} {db after : Db} → Step network db after → Inv network db → Inv network after
Step-Inv {network} {db} (claim c clock) v = claim_attempt-Inv network db v c clock
Step-Inv {network} {db} (change id raw now) v =
    set_attempt_change_address-Inv network db v id raw now
Step-Inv {network} {db} (reserve id p now) v = reserve_attempt_plan-Inv network db v id p now
Step-Inv {network} {db} (sign id now) v = begin_attempt_signing-Inv network db v id now
Step-Inv {network} {db} (complete id r now) v = complete_attempt_signing-Inv network db v id r now
Step-Inv {network} {db} (mark id m now p n) v = mark_attempt_state-Inv network db v id m now p n
Step-Inv {network} {db} (cancel id now) v = cancel_attempt-Inv network db v id now

-- Where it holds before, the invariant holds after any sequence of store calls of the coordinator: a
-- note has one reservation at most, an attempt past planning and not over holds every note of its
-- plan, and each reservation is that of such an attempt, for its wallet.
pub Reach-Inv :
    {network : String} {db after : Db} → Inv network db → Reach network db after → Inv network after
Reach-Inv v here = v
Reach-Inv v (next r s) = Step-Inv s (Reach-Inv v r)

-- A database with no attempt and no reservation.
abbrev pub fresh_db : List String → Db
fresh_db wallets = record { wallets = wallets; attempts = []; reservations = []; events = [] }

pub Inv-fresh : (network : String) (wallets : List String) → Inv network (fresh_db wallets)
unfolding owner find_attempt
Inv-fresh network wallets = record {
  keyed = tt;
  held = λ id a note f h m. absurd (cc f);
  backed = λ net wallet note id o. absurd (cc o);
}

-- From a fresh database, after any sequence of store calls of the coordinator: a note of one attempt
-- is not a note of another of the same wallet, where both are past planning and not over.
pub no_double_spend :
    (network note id other : String) (wallets : List String) {after : Db} (a b : Attempt)
    → Reach network (fresh_db wallets) after
    → find_attempt id after.attempts ≡ some a
    → find_attempt other after.attempts ≡ some b
    → id ≢ other
    → holds a.state ≡ true
    → holds b.state ≡ true
    → a.wallet_id ≡ b.wallet_id
    → mem note a.selected_note_ids ≡ true
    → mem note b.selected_note_ids ≡ false
no_double_spend network note id other wallets {after} a b r fa fb ne ha hb w m =
    elim (Bool-cases (mem note b.selected_note_ids)) [
      | inr e ↦ e
      | inl e ↦ absurd (
          ne (
            disjoint network note id other after a b (Reach-Inv (Inv-fresh network wallets) r) fa fb
              ha hb w m e))
    ]
