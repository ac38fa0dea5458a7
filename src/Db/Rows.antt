-- ===== src/Db/Rows.antt =====
-- Reading a row after an update or an insertion.
use juno_exchange_gateway.Prelude.{
  ◌≡◌, refl, ◌⊎◌, inl, inr, Bool-cases, false, some, List, [], ◌∷◌, String, str_eq, str_eq_iff,
  arith,
}
use juno_exchange_gateway.Db.{Attempt, find_attempt, update_attempt}

-- A row that is found has the key that was asked for.
pub find_attempt-id :
    (id : String) (rows : List Attempt) (a : Attempt)
    → find_attempt id rows ≡ some a
    → a.attempt_id ≡ id
unfolding find_attempt
find_attempt-id id [] a h = ground arith
find_attempt-id id (b ∷ rows) a h =
    ground (arith, find_attempt-id id rows a, str_eq_iff b.attempt_id id)

pub find_attempt-update_self :
    (id : String) (f : Attempt → Attempt) (rows : List Attempt) (a : Attempt)
    → ((b : Attempt) → (f b).attempt_id ≡ b.attempt_id)
    → find_attempt id rows ≡ some a
    → find_attempt id (update_attempt id f rows) ≡ some (f a)
unfolding find_attempt update_attempt
find_attempt-update_self id f [] a keep h = ground arith
find_attempt-update_self id f (b ∷ rows) a keep h =
    ground (arith, find_attempt-update_self id f rows a keep, keep b)

pub find_attempt-update_ne :
    (id other : String) (f : Attempt → Attempt) (rows : List Attempt)
    → ((b : Attempt) → (f b).attempt_id ≡ b.attempt_id)
    → str_eq other id ≡ false
    → find_attempt other (update_attempt id f rows) ≡ find_attempt other rows
unfolding find_attempt update_attempt
find_attempt-update_ne id other f [] keep h = refl
find_attempt-update_ne id other f (b ∷ rows) keep h = ground (
  arith,
  find_attempt-update_ne id other f rows keep h,
  keep b,
  str_eq_iff b.attempt_id id,
  str_eq_iff b.attempt_id other,
  str_eq_iff other id,
)

-- A row after an update is a row from before it, or the changed row.
pub find_attempt-update_cases :
    (id other : String) (f : Attempt → Attempt) (rows : List Attempt) (b : Attempt)
    → ((c : Attempt) → (f c).attempt_id ≡ c.attempt_id)
    → find_attempt other (update_attempt id f rows) ≡ some b
    → (a : Attempt) × (find_attempt other rows ≡ some a) × ((b ≡ a) ⊎ ((b ≡ f a) × (other ≡ id)))
unfolding find_attempt update_attempt
find_attempt-update_cases id other f [] b keep h = absurd (cc h)
find_attempt-update_cases id other f (a ∷ rows) b keep h =
    elim (Bool-cases (str_eq a.attempt_id other)) [
      | inl e ↦ (
        a,
        ground arith,
        ground (arith, keep a, str_eq_iff a.attempt_id id, str_eq_iff a.attempt_id other),
      )
      | inr e ↦
          let (c, found, how) =
            find_attempt-update_cases id other f rows b keep (ground (arith, keep a)) in
          (c, ground (arith, found), how)
    ]
