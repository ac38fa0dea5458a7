-- ===== src/Attempts/States.antt =====
-- What each operation does to the states of the rows with one ID.
use juno_exchange_gateway.Attempts.Signing.{
  Signed, to_signing, to_signed, begin_attempt_signing, complete_attempt_signing,
}
use juno_exchange_gateway.Prelude.{ℕ, ◌≡◌, inl, inr, refl, some, String}
use juno_exchange_gateway.State.{State, signing}
use juno_exchange_gateway.Db.{Attempt, Db, find_attempt}
use juno_exchange_gateway.Db.Rows.{find_attempt-update_cases}
use juno_exchange_gateway.Attempts.Mark.{Mark, touch, marked, mark_attempt_state}
use juno_exchange_gateway.Attempts.Cases.{
  mark_attempt_state_cases, begin_attempt_signing_cases, complete_attempt_signing_cases,
}

-- Every state of a row with this ID has the property.
abbrev pub StateIs : (State → Type 0) → String → Db → Type 0
StateIs P id db = (b : Attempt) → find_attempt id db.attempts ≡ some b → P b.state

pub mark-StateIs :
    (P : State → Type 0) (other id : String) (m : Mark) (now : ℕ) (db : Db)
    → ((s : State) → m.state ≡ some s → P s)
    → StateIs P other db
    → StateIs P other (mark_attempt_state id m now db).1
unfolding touch marked
mark-StateIs P other id m now db p v =
    mark_attempt_state_cases (StateIs P other) db v id m now
      (λ a s found to at b h.
        let (c, before, how) =
          find_attempt-update_cases a.attempt_id other (touch now) db.attempts b (λ x. refl) h in
        elim how [ inl e ↦ rw e (v c before) | inr e ↦ rw e.0 (v c before) ])
      (λ a s found to al safe b h.
        let (c, before, how) =
          find_attempt-update_cases a.attempt_id other (marked s m now) db.attempts b (λ x. refl)
            h in
        elim how [ inl e ↦ rw e (v c before) | inr e ↦ rw e.0 (p s to) ])

pub begin_attempt_signing-StateIs :
    (P : State → Type 0) (other id : String) (now : ℕ) (db : Db)
    → P signing
    → StateIs P other db
    → StateIs P other (begin_attempt_signing id now db).1
unfolding to_signing
begin_attempt_signing-StateIs P other id now db p v =
    begin_attempt_signing_cases (StateIs P other) db v id now λ a found at b h.
      let (c, before, how) =
        find_attempt-update_cases a.attempt_id other (to_signing now) db.attempts b (λ x. refl) h in
      elim how [ inl e ↦ rw e (v c before) | inr e ↦ rw e.0 p ]

pub complete_attempt_signing-StateIs :
    (P : State → Type 0) (other id : String) (r : Signed) (now : ℕ) (db : Db)
    → P State.signed
    → StateIs P other db
    → StateIs P other (complete_attempt_signing id r now db).1
unfolding to_signed
complete_attempt_signing-StateIs P other id r now db p v =
    complete_attempt_signing_cases (StateIs P other) db v id r now λ a found at b h.
      let (c, before, how) =
        find_attempt-update_cases a.attempt_id other (to_signed r now) db.attempts b (λ x. refl)
          h in
      elim how [ inl e ↦ rw e (v c before) | inr e ↦ rw e.0 p ]
