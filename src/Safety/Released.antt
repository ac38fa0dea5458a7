-- ===== src/Safety/Released.antt =====
-- When the store gives a note back.
use juno_exchange_gateway.Safety.Reach.{Reach, Reach-Inv}
use juno_exchange_gateway.Safety.Invariant.{Inv, holds}
use juno_exchange_gateway.Safety.Descent.{attempt_persists}
use juno_exchange_gateway.Db.{Attempt, Db, find_attempt, owner}
use juno_exchange_gateway.State.{planning, cancelled, failed_unsigned, released, final, State}
use juno_exchange_gateway.Prelude.{
  ◌≡◌, String, Bool, Bool-cases, ap, arith, false, inl, inr, mem, some, sym, true, ◌∙◌, ◌≢◌, ◌⊎◌,
}

-- the states in which an attempt is over
abbrev pub has_ended : State → Bool
has_ended cancelled = true
has_ended failed_unsigned = true
has_ended released = true
has_ended final = true
has_ended _ = false

-- an attempt that is past planning and holds no notes is over
not-holds-ended : (s : State) → s ≢ planning → holds s ≡ false → has_ended s ≡ true
not-holds-ended s n h = ground arith

-- Where the invariant holds, a note that is reserved for an attempt is still reserved for it after any
-- sequence of store calls of the coordinator, by any worker or request, unless the attempt is by then
-- cancelled, failed unsigned, released or final.
pub reservation_persists :
    {network : String} {db after : Db} (wallet note id : String)
    → Inv network db
    → Reach network db after
    → owner network wallet note db.reservations ≡ some id
    → (owner network wallet note after.reservations ≡ some id)
      ⊎ ((b : Attempt) × (find_attempt id after.attempts ≡ some b) × (has_ended b.state ≡ true))
reservation_persists {network} {db} {after} wallet note id v r o =
    let by = v.backed network wallet note id o in
    let n : by.by.state ≢ planning = λ e. absurd (let h = by.holding in ground (arith, h, e)) in
    let (b, f, d) = attempt_persists id by.by r by.found in
    let k = d.plan_kept n in
    elim (Bool-cases (holds b.state)) [
      | inr e ↦ inr (b, f, not-holds-ended b.state k.0 e)
      | inl e ↦
          let w : b.wallet_id ≡ wallet = ap (λ i. i.wallet_id) d.identity_kept ∙ sym by.wallet_eq in
          let m : mem note b.selected_note_ids ≡ true = rw k.2 by.selected in
          let held = (Reach-Inv v r).held id b note f e m in inl (rw w at held)
    ]
