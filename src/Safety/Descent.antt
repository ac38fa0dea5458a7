-- ===== src/Safety/Descent.antt =====
-- What becomes of an attempt over any sequence of store calls.
use juno_exchange_gateway.Prelude.{◌≡◌, ◌≢◌, refl, ◌∙◌, true, some, String, arith}
use juno_exchange_gateway.State.{
  State, planning, allowed_attempt_transition, terminal_attempt_state,
}
use juno_exchange_gateway.State.Graph.{is_signed}
use juno_exchange_gateway.Db.{Attempt, Db, find_attempt}
use juno_exchange_gateway.Safety.Reach.{Reach, here, next}
use juno_exchange_gateway.Safety.Evolves.{edge, identity, Evolves}
use juno_exchange_gateway.Safety.Evolution.{Step-Continues}

-- Any number of store calls later.
pub record Descends (a b : Attempt) : Type 0 where
  pub identity_kept : identity b ≡ identity a
  pub plan_kept :
      a.state ≢ planning
      → (b.state ≢ planning)
        × (b.plan_json ≡ a.plan_json)
        × (b.selected_note_ids ≡ a.selected_note_ids)
  pub signed_kept :
      is_signed a.state ≡ true
      → (is_signed b.state ≡ true) × (b.txid ≡ a.txid) × (b.raw_tx_hex ≡ a.raw_tx_hex)
  pub ended : terminal_attempt_state a.state ≡ true → b.state ≡ a.state

edge-planning : (s t : State) → edge s t ≡ true → s ≢ planning → t ≢ planning
unfolding allowed_attempt_transition terminal_attempt_state
edge-planning s t e n h = ground arith

edge-signed : (s t : State) → edge s t ≡ true → is_signed s ≡ true → is_signed t ≡ true
unfolding allowed_attempt_transition terminal_attempt_state
edge-signed s t e n = ground arith

edge-terminal : (s t : State) → edge s t ≡ true → terminal_attempt_state s ≡ true → t ≡ s
unfolding allowed_attempt_transition terminal_attempt_state
edge-terminal s t e n = ground arith

Descends-next : (a b c : Attempt) → Descends a b → Evolves b c → Descends a c
Descends-next a b c d e = record {
  identity_kept = e.identity_kept ∙ d.identity_kept;
  plan_kept = λ n.
      let k = d.plan_kept n in
      let l = e.plan_kept k.0 in (edge-planning b.state c.state e.moves k.0, l.0 ∙ k.1, l.1 ∙ k.2);
  signed_kept = λ n.
      let k = d.signed_kept n in
      let l = e.signed_kept k.0 in (edge-signed b.state c.state e.moves k.0, l.0 ∙ k.1, l.1 ∙ k.2);
  ended = λ n. let k = d.ended n in edge-terminal b.state c.state e.moves (rw k n) ∙ k;
}

-- After any sequence of store calls an attempt is still there with the identity and the request that
-- it was claimed with; once it has left `planning` it never returns there, and its plan and notes are
-- the same for good; once signed it stays so, with the same transaction; and a terminal state is
-- kept.
pub attempt_persists :
    {network : String} {db after : Db} (id : String) (a : Attempt)
    → Reach network db after
    → find_attempt id db.attempts ≡ some a
    → (b : Attempt) × (find_attempt id after.attempts ≡ some b) × Descends a b
attempt_persists id a here f = (
  a,
  f,
  record {
    identity_kept = refl;
    plan_kept = λ n. (n, refl, refl);
    signed_kept = λ n. (n, refl, refl);
    ended = λ n. refl;
  },
)
attempt_persists {network} id a (next {mid = mid} r s) f =
    let (b, g, d) = attempt_persists id a r f in
    let k = Step-Continues network id b mid g s in
    (k.row, k.found, Descends-next a b k.row d k.evolves)
