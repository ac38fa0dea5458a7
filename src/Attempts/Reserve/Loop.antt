-- ===== src/Attempts/Reserve/Loop.antt =====
-- What the reservation loop does to the holders of notes.
use juno_exchange_gateway.Prelude.{
  ℕ, ◌≡◌, ◌⊎◌, inl, inr, true, none, some, List, [], ◌∷◌, String, str_eq, str_eq_iff, str_eq_refl,
  mem, arith, sym, Bool-cases, Option-cases,
}
use juno_exchange_gateway.Db.{Attempt, Reservation, same_key, owner}
use juno_exchange_gateway.Db.Owners.{IsKeyed, owner-of_key, same_key_iff}
use juno_exchange_gateway.Attempts.Reserve.{Plan, reservation_row, insert_or_ignore, reserve_notes}

same_key_self : (r : Reservation) → same_key r r.network r.wallet_id r.note_id ≡ true
unfolding same_key
same_key_self r =
    ground (arith, str_eq_refl r.network, str_eq_refl r.wallet_id, str_eq_refl r.note_id)

module _ (r : Reservation) (rows rows' : List Reservation) where
  insert-eq :
      insert_or_ignore r rows ≡ some rows'
      → (owner r.network r.wallet_id r.note_id rows ≡ none) × (rows' ≡ r ∷ rows)
  unfolding insert_or_ignore
  insert-eq h = ground arith

  insert_self :
      insert_or_ignore r rows ≡ some rows'
      → owner r.network r.wallet_id r.note_id rows' ≡ some r.attempt_id
  unfolding owner
  insert_self h = let e = insert-eq h in rw e.1 (ground (arith, same_key_self r))

  insert-keep :
      (network wallet note x : String)
      → insert_or_ignore r rows ≡ some rows'
      → owner network wallet note rows ≡ some x
      → owner network wallet note rows' ≡ some x
  unfolding owner
  insert-keep network wallet note x h o =
      let e = insert-eq h in rw e.1 (ground (arith, e.0, owner-of_key r network wallet note rows))

  insert-back :
      (network wallet note x : String)
      → insert_or_ignore r rows ≡ some rows'
      → owner network wallet note rows' ≡ some x
      → (owner network wallet note rows ≡ some x)
        ⊎ ((same_key r network wallet note ≡ true) × (x ≡ r.attempt_id))
  unfolding owner
  insert-back network wallet note x h o =
      let e = insert-eq h in
      let o' : owner network wallet note (r ∷ rows) ≡ some x = rw e.1 at o in ground arith

  insert-IsKeyed : insert_or_ignore r rows ≡ some rows' → IsKeyed rows → IsKeyed rows'
  insert-IsKeyed h k = let e = insert-eq h in rw e.1 (e.0, k)

-- One turn of the loop.
loop-cons :
    (row : String → Reservation) (n : String) (ns : List String) (rows rows' : List Reservation)
    → reserve_notes row (n ∷ ns) rows ≡ some rows'
    → (mid : List Reservation) × (insert_or_ignore (row n) rows ≡ some mid)
      × (reserve_notes row ns mid ≡ some rows')
unfolding reserve_notes
loop-cons row n ns rows rows' h = elim (Option-cases (insert_or_ignore (row n) rows)) [
  | inl e ↦ ground arith
  | inr (mid, e) ↦ (mid, e, ground arith)
]

pub loop-keep :
    (row : String → Reservation) (ns : List String) (rows rows' : List Reservation)
    (network wallet note x : String)
    → reserve_notes row ns rows ≡ some rows'
    → owner network wallet note rows ≡ some x
    → owner network wallet note rows' ≡ some x
unfolding reserve_notes
loop-keep row [] rows rows' network wallet note x h o = ground arith
loop-keep row (n ∷ ns) rows rows' network wallet note x h o =
    let (mid, e, rest) = loop-cons row n ns rows rows' h in
    loop-keep row ns mid rows' network wallet note x rest
      (insert-keep (row n) rows mid network wallet note x e o)

pub loop-IsKeyed :
    (row : String → Reservation) (ns : List String) (rows rows' : List Reservation)
    → reserve_notes row ns rows ≡ some rows'
    → IsKeyed rows
    → IsKeyed rows'
unfolding reserve_notes
loop-IsKeyed row [] rows rows' h k = let e : rows ≡ rows' = ground arith in rw (← e) k
loop-IsKeyed row (n ∷ ns) rows rows' h k =
    let (mid, e, rest) = loop-cons row n ns rows rows' h in
    loop-IsKeyed row ns mid rows' rest (insert-IsKeyed (row n) rows mid e k)

module _ (network : String) (p : Plan) (now : ℕ) (a : Attempt) where
  -- Every note of the plan is held by the attempt.
  pub loop_self :
      (ns : List String) (rows rows' : List Reservation) (note : String)
      → reserve_notes (reservation_row network p now a) ns rows ≡ some rows'
      → mem note ns ≡ true
      → owner network a.wallet_id note rows' ≡ some a.attempt_id
  loop_self [] rows rows' note h m = ground arith
  loop_self (n ∷ ns) rows rows' note h m =
      let (mid, e, rest) = loop-cons (reservation_row network p now a) n ns rows rows' h in
      elim (Bool-cases (str_eq note n)) [
        | inl same ↦ rw ((str_eq_iff note n).0 same) (
            loop-keep (reservation_row network p now a) ns mid rows' network a.wallet_id n
              a.attempt_id rest (insert_self (reservation_row network p now a n) rows mid e))
        | inr other ↦ loop_self ns mid rows' note rest (ground arith)
      ]

  -- A note with a holder had it before, or is one of the plan, held by the attempt.
  pub loop-back :
      (ns : List String) (rows rows' : List Reservation) (net wallet note x : String)
      → reserve_notes (reservation_row network p now a) ns rows ≡ some rows'
      → owner net wallet note rows' ≡ some x
      → (owner net wallet note rows ≡ some x)
        ⊎ ((net ≡ network) × (wallet ≡ a.wallet_id) × (mem note ns ≡ true) × (x ≡ a.attempt_id))
  unfolding reserve_notes
  loop-back [] rows rows' net wallet note x h o = inl (ground arith)
  loop-back (n ∷ ns) rows rows' net wallet note x h o =
      let (mid, e, rest) = loop-cons (reservation_row network p now a) n ns rows rows' h in
      elim (loop-back ns mid rows' net wallet note x rest o) [
        | inr later ↦ inr (later.0, later.1, ground arith, later.3)
        | inl before ↦
            elim (insert-back (reservation_row network p now a n) rows mid net wallet note x e
              before) [
                | inl old ↦ inl old
                | inr new ↦
                    let k =
                      same_key_iff (reservation_row network p now a n) net wallet note new.0 in
                    inr (sym k.0, sym k.1, ground (arith, str_eq_iff note n, k.2), new.1)
              ]
      ]
