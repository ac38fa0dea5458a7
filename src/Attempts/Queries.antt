-- ===== src/Attempts/Queries.antt =====
-- The listings of internal/storage/sqlite/attempts.go: `RecoverableAttempts`,
-- `ActiveAttemptsByWallet` and `ActiveNoteIDs`.
use juno_exchange_gateway.Prelude.{
  ℕ, zero, suc, ◌+◌, Bool, true, false, ◌||◌, ◌&&◌, List, [], ◌∷◌, String, str_eq, str_lt, ltb,
  length, map, if◌then◌else◌,
}
use juno_exchange_gateway.State.{recoverable_state}
use juno_exchange_gateway.Db.{Attempt, Db, Outcome, ok, err, attempt_list_limit, invalid_limit}

module _ {ℓ} {A : Type ℓ} where
  -- `WHERE`
  unfoldable pub select : (A → Bool) → List A → List A
  select p [] = []
  select p (x ∷ xs) = let rest = select p xs in if p x then x ∷ rest else rest

  -- `ORDER BY`
  insert_by : (A → A → Bool) → A → List A → List A
  insert_by before x [] = x ∷ []
  insert_by before x (y ∷ ys) = if before y x then y ∷ insert_by before x ys else x ∷ y ∷ ys

  unfoldable pub order_by : (A → A → Bool) → List A → List A
  unfolding insert_by
  order_by before [] = []
  order_by before (x ∷ xs) = insert_by before x (order_by before xs)

  -- `LIMIT`
  unfoldable pub limit_to : ℕ → List A → List A
  limit_to zero xs = []
  limit_to (suc n) [] = []
  limit_to (suc n) (x ∷ xs) = x ∷ limit_to n xs

bad_limit : ℕ → Bool
bad_limit limit = ltb limit 1 || ltb 1000 limit

unfoldable pub recoverable_attempts : String → ℕ → Db → Outcome (List Attempt)
unfolding bad_limit
recoverable_attempts after limit db =
    if bad_limit limit
    then err invalid_limit
    else ok (
        limit_to limit (
          order_by (λ a b. str_lt a.attempt_id b.attempt_id)
            (select (λ a. recoverable_state a.state && str_lt after a.attempt_id) db.attempts)))

-- `ORDER BY created_at,attempt_id`; the column holds the text that `stamp` makes of a time,
-- `Format(time.RFC3339Nano)`
created_before : (ℕ → String) → Attempt → Attempt → Bool
created_before stamp a b =
    if str_lt (stamp a.created_at) (stamp b.created_at)
    then true
    else if str_lt (stamp b.created_at) (stamp a.created_at)
    then false
    else str_lt a.attempt_id b.attempt_id

unfoldable pub active_attempts_by_wallet :
    (ℕ → String) → String → String → ℕ → Db → Outcome (List Attempt)
unfolding bad_limit created_before
active_attempts_by_wallet stamp wallet principal limit db =
    if bad_limit limit
    then err invalid_limit
    else let rows = limit_to (limit + 1) (
        order_by (created_before stamp) (
          select
            (λ a.
              str_eq a.wallet_id wallet
              && str_eq a.principal_name principal
              && recoverable_state a.state)
            db.attempts)) in
      if ltb limit (length rows) then err attempt_list_limit else ok rows

unfoldable pub active_note_ids : String → String → Db → List String
active_note_ids network wallet db = order_by str_lt (
    map (λ r. r.note_id)
      (select (λ r. str_eq r.network network && str_eq r.wallet_id wallet) db.reservations))
