-- ===== src/Safety/Steps.antt =====
-- Each store operation keeps the invariant.
use juno_exchange_gateway.Prelude.{
  ℕ, ◌≡◌, refl, ◌∙◌, trim_space, Bool, true, false, none, some, List, ◌∷◌, String, str_eq,
  str_eq_iff, arith, inl, inr, Bool-cases, if◌then◌else◌,
}
use juno_exchange_gateway.State.{
  State, planning, reserved, signing_unknown, broadcast, mined, orphaned,
  expired_pending_reconciliation, failed_unsigned, released, final, allowed_attempt_transition,
  terminal_attempt_state,
}
use juno_exchange_gateway.Db.{
  Attempt, Db, AttemptEvent, find_attempt, update_attempt, delete_reservations,
}
use juno_exchange_gateway.Attempts.Cases.{
  own_row, set_attempt_change_address_cases, begin_attempt_signing_cases,
  complete_attempt_signing_cases, cancel_attempt_cases, mark_attempt_state_cases,
  reserve_attempt_plan_cases, claim_attempt_cases,
}
use juno_exchange_gateway.Attempts.Claim.{
  inserted, claim_attempt, set_attempt_change_address, with_change_address,
}
use juno_exchange_gateway.Attempts.Reserve.{
  Plan, sort_strings, with_plan, reservation_row, reserve_attempt_plan,
}
use juno_exchange_gateway.Attempts.Reserve.Loop.{loop-keep, loop-IsKeyed, loop_self, loop-back}
use juno_exchange_gateway.Attempts.Signing.{
  Signed, to_signing, to_signed, begin_attempt_signing, complete_attempt_signing,
}
use juno_exchange_gateway.Attempts.Mark.{
  Mark, touch, marked, to_cancelled, mark_attempt_state, cancel_attempt,
}
use juno_exchange_gateway.Safety.Invariant.{holds, IsBacked, Inv}
use juno_exchange_gateway.Safety.Updates.{Inv-same, Inv-release, Inv-reserve}

-- The states that the coordinator passes to `MarkAttemptState`, each with its release flag.
abbrev pub permitted : State → Bool → Bool
permitted planning false = true
permitted reserved false = true
permitted signing_unknown false = true
permitted broadcast false = true
permitted mined false = true
permitted orphaned false = true
permitted expired_pending_reconciliation false = true
permitted failed_unsigned true = true
permitted released true = true
permitted final true = true
permitted _ _ = false

permitted_release : (s : State) → permitted s true ≡ true → holds s ≡ false
permitted_release s h = ground arith

permitted_keep :
    (current s : State)
    → permitted s false ≡ true
    → allowed_attempt_transition current s ≡ true
    → (s ≡ reserved → current ≡ planning → ⊥)
    → holds s ≡ holds current
unfolding allowed_attempt_transition terminal_attempt_state
permitted_keep current s p h n = ground arith

module _ (network : String) (db : Db) (v : Inv network db) where
  pub set_attempt_change_address-Inv :
      (id raw : String) (now : ℕ) → Inv network (set_attempt_change_address id raw now db).1
  unfolding with_change_address
  set_attempt_change_address-Inv id raw now =
      set_attempt_change_address_cases (Inv network) db v id raw now λ a found at.
        Inv-same network db a (with_change_address (trim_space raw) now) v found (λ b. refl)
          db.events refl refl refl

  pub begin_attempt_signing-Inv :
      (id : String) (now : ℕ) → Inv network (begin_attempt_signing id now db).1
  unfolding to_signing
  begin_attempt_signing-Inv id now =
      begin_attempt_signing_cases (Inv network) db v id now λ a found at.
        Inv-same network db a (to_signing now) v found (λ b. refl) _ refl refl (rw at refl)

  pub complete_attempt_signing-Inv :
      (id : String) (r : Signed) (now : ℕ) → Inv network (complete_attempt_signing id r now db).1
  unfolding to_signed
  complete_attempt_signing-Inv id r now =
      complete_attempt_signing_cases (Inv network) db v id r now λ a found at.
        Inv-same network db a (to_signed r now) v found (λ b. refl) _ refl refl (ground arith)

  pub cancel_attempt-Inv : (id : String) (now : ℕ) → Inv network (cancel_attempt id now db).1
  unfolding to_cancelled
  cancel_attempt-Inv id now =
      cancel_attempt_cases (Inv network) db v id now
        λ a found at. Inv-release network db a (to_cancelled now) v found (λ b. refl) _ refl

  mark_moved-Inv :
      (a : Attempt) (s : State) (m : Mark) (now : ℕ) (events : List AttemptEvent)
      → find_attempt a.attempt_id db.attempts ≡ some a
      → permitted s m.release ≡ true
      → allowed_attempt_transition a.state s ≡ true
      → (s ≡ reserved → a.state ≡ planning → ⊥)
      → Inv network (record db {
        attempts = update_attempt a.attempt_id (marked s m now) db.attempts;
        reservations =
            if m.release then delete_reservations a.attempt_id db.reservations else db.reservations;
        events = events;
      })
  unfolding marked
  mark_moved-Inv a s m now events found p h n = elim (Bool-cases m.release) [
    | inl e ↦ rw e (
        Inv-release network db a (marked s m now) v found (λ b. refl) events
          (permitted_release s (rw e at p)))
    | inr e ↦ rw e (
        Inv-same network db a (marked s m now) v found (λ b. refl) events refl refl
          (permitted_keep a.state s (rw e at p) h n))
  ]

  -- An attempt that may still be planning is not put back to `reserved`.
  pub mark_attempt_state-Inv :
      (id : String) (m : Mark) (now : ℕ)
      → ((s : State) → m.state ≡ some s → permitted s m.release ≡ true)
      → (m.state ≡ some reserved
          → (a : Attempt) → find_attempt id db.attempts ≡ some a
          → a.state ≡ planning
          → ⊥)
      → Inv network (mark_attempt_state id m now db).1
  mark_attempt_state-Inv id m now p n =
      mark_attempt_state_cases (Inv network) db v id m now
        (λ a s found to at.
          Inv-same network db a (touch now) v (own_row id db.attempts a found)
            (λ b. unfold touch in refl) db.events (unfold touch in refl) (unfold touch in refl)
            (unfold touch in refl))
        (λ a s found to h safe.
          mark_moved-Inv a s m now _ (own_row id db.attempts a found) (p s to) h
            (λ e pl. n (rw (← e) to) a found pl))

  pub reserve_attempt_plan-Inv :
      (id : String) (p : Plan) (now : ℕ) → Inv network (reserve_attempt_plan id network p now db).1
  unfolding with_plan
  reserve_attempt_plan-Inv id p now =
      reserve_attempt_plan_cases (Inv network) db v id network p now λ a rows found at h.
        let notes = sort_strings p.note_ids in
        let row = reservation_row network p now a in
        Inv-reserve network db a (with_plan p notes now) v found (λ b. refl) rows _
          (loop-IsKeyed row notes db.reservations rows h v.keyed) (rw at refl) refl
          (λ net wallet note x o. loop-keep row notes db.reservations rows net wallet note x h o)
          (λ note m. loop_self network p now a notes db.reservations rows note h m)
          (λ net wallet note x o.
            loop-back network p now a notes db.reservations rows net wallet note x h o)

  module _ (candidate : Attempt) (now : ℕ) (events : List AttemptEvent)
      (fresh : find_attempt candidate.attempt_id db.attempts ≡ none) where
    backed_claimed :
        (net wallet note id : String)
        → IsBacked network db net wallet note id
        → find_attempt id (inserted candidate now ∷ db.attempts) ≡ find_attempt id db.attempts
    unfolding find_attempt inserted
    backed_claimed net wallet note id k = elim (Bool-cases (str_eq candidate.attempt_id id)) [
      | inl e ↦
          let same = (str_eq_iff candidate.attempt_id id).0 e in
          absurd (cc (rw same at fresh, k.found))
      | inr e ↦ rw e
    ]

    held_claimed :
        (id : String) (a : Attempt)
        → find_attempt id (inserted candidate now ∷ db.attempts) ≡ some a
        → holds a.state ≡ true
        → find_attempt id db.attempts ≡ some a
    unfolding find_attempt inserted
    held_claimed id a f h = elim (Bool-cases (str_eq candidate.attempt_id id)) [
      | inl e ↦ ground arith
      | inr e ↦ rw e at f
    ]

    claimed-Inv :
        Inv network (record db { attempts = inserted candidate now ∷ db.attempts; events = events })
    claimed-Inv = record {
      keyed = v.keyed;
      held = λ id a note f h m. v.held id a note (held_claimed id a f h) h m;
      backed = λ net wallet note id o.
          let k = v.backed net wallet note id o in
          record {
            by = k.by;
            found = backed_claimed net wallet note id k ∙ k.found;
            holding = k.holding;
            net_eq = k.net_eq;
            wallet_eq = k.wallet_eq;
            selected = k.selected;
          };
    }

  pub claim_attempt-Inv :
      (candidate : Attempt) (clock : ℕ) → Inv network (claim_attempt candidate clock db).1
  claim_attempt-Inv candidate clock =
      claim_attempt_cases (Inv network) db v candidate clock
        λ now fresh scoped. claimed-Inv candidate now _ fresh
