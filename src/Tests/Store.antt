-- ===== src/Tests/Store.antt =====
-- The store's theorems at the sample attempts.
use juno_exchange_gateway.Safety.Released.{has_ended, reservation_persists}
use juno_exchange_gateway.Attempts.Mark.{cancel_attempt}
use juno_exchange_gateway.Prelude.{
  ◌≡◌, refl, true, false, some, [], ◌∷◌, mem, str_eq, str_lt, ap, ◌≢◌, String, ◌⊎◌,
}
use juno_exchange_gateway.Db.{
  Attempt, find_attempt, find_scoped, owner, same_key, update_attempt, Db,
}
use juno_exchange_gateway.Attempts.Claim.{inserted, claim_attempt}
use juno_exchange_gateway.Attempts.Reserve.{
  with_plan, reserve_attempt_plan, notes_unique, sort_strings, reserve_notes,
}
use juno_exchange_gateway.Safety.Invariant.{Inv}
use juno_exchange_gateway.Safety.Reach.{Inv-fresh, Reach-Inv, no_double_spend, cancel, next, Reach}
use juno_exchange_gateway.Safety.Descent.{Descends, attempt_persists}
use juno_exchange_gateway.Tests.Sample.{
  candidate, plan_of, both_reserved, one_signed, both_reserved-Reach, signing-Reach,
}

abbrev first : Attempt
first =
    with_plan (plan_of ("n2" ∷ "n1" ∷ [])) ("n1" ∷ "n2" ∷ []) 3
      (inserted (candidate "txn_1" "v1:a") 1)

abbrev second : Attempt
second = with_plan (plan_of ("n3" ∷ [])) ("n3" ∷ []) 4 (inserted (candidate "txn_2" "v1:b") 2)

first_found : find_attempt "txn_1" both_reserved.attempts ≡ some first
unfolding claim_attempt reserve_attempt_plan find_attempt find_scoped str_eq str_lt notes_unique
    sort_strings reserve_notes owner same_key update_attempt with_plan
first_found = refl

second_found : find_attempt "txn_2" both_reserved.attempts ≡ some second
unfolding claim_attempt reserve_attempt_plan find_attempt find_scoped str_eq str_lt notes_unique
    sort_strings reserve_notes owner same_key update_attempt with_plan
second_found = refl

ids_differ : (◌≢◌ {A = String} "txn_1" "txn_2")
unfolding str_eq
ids_differ e = let t : true ≡ false = ap (str_eq "txn_1") e in absurd (cc t)

Reach-Inv_example : Inv "mainnet" both_reserved
Reach-Inv_example = Reach-Inv (Inv-fresh "mainnet" ("hot" ∷ [])) both_reserved-Reach

no_double_spend_example : mem "n2" second.selected_note_ids ≡ false
unfolding with_plan str_eq inserted
no_double_spend_example =
    no_double_spend "mainnet" "n2" "txn_1" "txn_2" ("hot" ∷ []) first second both_reserved-Reach
      first_found second_found ids_differ refl refl refl refl

attempt_persists_example :
    (b : Attempt) × (find_attempt "txn_1" one_signed.attempts ≡ some b) × Descends first b
attempt_persists_example = attempt_persists "txn_1" first signing-Reach first_found

abbrev one_cancelled : Db
one_cancelled = (cancel_attempt "txn_2" 7 one_signed).1

cancelling-Reach : Reach "mainnet" both_reserved one_cancelled
cancelling-Reach = next signing-Reach (cancel "txn_2" 7)

third_reserved : owner "mainnet" "hot" "n3" both_reserved.reservations ≡ some "txn_2"
unfolding owner reserve_attempt_plan str_eq notes_unique sort_strings find_attempt str_lt
    claim_attempt find_scoped reserve_notes same_key update_attempt
third_reserved = refl

reservation_persists_example :
    (owner "mainnet" "hot" "n3" one_cancelled.reservations ≡ some "txn_2")
    ⊎ ((b : Attempt) × (find_attempt "txn_2" one_cancelled.attempts ≡ some b)
        × (has_ended b.state ≡ true))
reservation_persists_example =
    reservation_persists "hot" "n3" "txn_2"
      (Reach-Inv (Inv-fresh "mainnet" ("hot" ∷ [])) both_reserved-Reach) cancelling-Reach
      third_reserved
