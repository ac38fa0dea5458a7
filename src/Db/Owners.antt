-- ===== src/Db/Owners.antt =====
-- Who holds a note after reservations are inserted or deleted.
use juno_exchange_gateway.Prelude.{
  ◌≡◌, refl, true, false, none, some, List, [], ◌∷◌, String, str_eq, str_eq_iff, arith, Bool-cases,
  inl, inr,
}
use juno_exchange_gateway.Db.{Reservation, same_key, owner, delete_reservations}

-- The primary key of the table: no two rows have one key.
abbrev pub IsKeyed : List Reservation → Type 0
IsKeyed [] = Unit
IsKeyed (r ∷ rows) = (owner r.network r.wallet_id r.note_id rows ≡ none) × IsKeyed rows

pub same_key_iff :
    (r : Reservation) (network wallet note : String)
    → same_key r network wallet note ≡ true
    → (r.network ≡ network) × (r.wallet_id ≡ wallet) × (r.note_id ≡ note)
unfolding same_key
same_key_iff r network wallet note h =
    ground (
      arith,
      str_eq_iff r.network network,
      str_eq_iff r.wallet_id wallet,
      str_eq_iff r.note_id note,
    )

-- Only rows of another attempt are left by a deletion.
pub owner-delete_self :
    (id network wallet note : String) (rows : List Reservation)
    → (owner network wallet note (delete_reservations id rows) ≡ some id → ⊥)
unfolding owner delete_reservations
owner-delete_self id network wallet note [] h = ground arith
owner-delete_self id network wallet note (r ∷ rows) h =
    ground (arith, owner-delete_self id network wallet note rows, str_eq_iff r.attempt_id id)

pub owner-delete_none :
    (id network wallet note : String) (rows : List Reservation)
    → owner network wallet note rows ≡ none
    → owner network wallet note (delete_reservations id rows) ≡ none
unfolding owner delete_reservations
owner-delete_none id network wallet note [] h = refl
owner-delete_none id network wallet note (r ∷ rows) h =
    ground (arith, owner-delete_none id network wallet note rows)

-- The rows of the other attempts stay.
pub owner-delete_ne :
    (id other network wallet note : String) (rows : List Reservation)
    → str_eq other id ≡ false
    → owner network wallet note rows ≡ some other
    → owner network wallet note (delete_reservations id rows) ≡ some other
unfolding owner delete_reservations
owner-delete_ne id other network wallet note [] ne h = ground arith
owner-delete_ne id other network wallet note (r ∷ rows) ne h =
    ground (arith, owner-delete_ne id other network wallet note rows ne)

pub owner-of_key :
    (r : Reservation) (network wallet note : String) (rows : List Reservation)
    → same_key r network wallet note ≡ true
    → owner r.network r.wallet_id r.note_id rows ≡ owner network wallet note rows
owner-of_key r network wallet note rows h =
    let e = same_key_iff r network wallet note h in rw (e.0, e.1, e.2)

-- A deletion brings no holder in.
pub owner-delete_back :
    (id other network wallet note : String) (rows : List Reservation)
    → IsKeyed rows
    → owner network wallet note (delete_reservations id rows) ≡ some other
    → owner network wallet note rows ≡ some other
unfolding owner delete_reservations
owner-delete_back id other network wallet note [] k h = h
owner-delete_back id other network wallet note (r ∷ rows) k h = ground (
  arith,
  owner-delete_back id other network wallet note rows k.1,
  owner-of_key r network wallet note rows,
  owner-delete_none id network wallet note rows,
)

pub IsKeyed-delete :
    (id : String) (rows : List Reservation) → IsKeyed rows → IsKeyed (delete_reservations id rows)
unfolding delete_reservations
IsKeyed-delete id [] k = tt
IsKeyed-delete id (r ∷ rows) k = elim (Bool-cases (str_eq r.attempt_id id)) [
  | inl e ↦ rw e (IsKeyed-delete id rows k.1)
  | inr e ↦
      rw e
        (owner-delete_none id r.network r.wallet_id r.note_id rows k.0, IsKeyed-delete id rows k.1)
]
