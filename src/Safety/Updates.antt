-- ===== src/Safety/Updates.antt =====
-- The ways in which the store changes a row, and the invariant under each.
use juno_exchange_gateway.Prelude.{
  ◌≡◌, sym, ◌∙◌, ap, ◌⊎◌, inl, inr, true, false, some, List, String, str_eq, str_eq_iff, mem,
  Bool-cases,
}
use mathlib.Core.Path.{subst}
use juno_exchange_gateway.Db.{
  Attempt, Reservation, Db, AttemptEvent, find_attempt, update_attempt, owner, delete_reservations,
}
use juno_exchange_gateway.Db.Rows.{find_attempt-update_self, find_attempt-update_ne}
use juno_exchange_gateway.Db.Owners.{
  IsKeyed, IsKeyed-delete, owner-delete_self, owner-delete_ne, owner-delete_back,
}
use juno_exchange_gateway.Safety.Invariant.{holds, IsBacked, Inv}

-- The row of `a` is updated by `f`.
module _ (network : String) (db : Db) (a : Attempt) (f : Attempt → Attempt) (v : Inv network db)
    (found : find_attempt a.attempt_id db.attempts ≡ some a)
    (keep : (b : Attempt) → (f b).attempt_id ≡ b.attempt_id) where
  abbrev after : List Attempt
  after = update_attempt a.attempt_id f db.attempts

  found_after : find_attempt a.attempt_id after ≡ some (f a)
  found_after = find_attempt-update_self a.attempt_id f db.attempts a keep found

  other_after :
      (id : String)
      → str_eq id a.attempt_id ≡ false
      → find_attempt id after ≡ find_attempt id db.attempts
  other_after id other = find_attempt-update_ne a.attempt_id id f db.attempts keep other

  -- What holds of the updated row and of every other row holds of each row after the update.
  by_row :
      (P : String → Attempt → Type 0) (id : String) (b : Attempt)
      → P a.attempt_id (f a)
      → (str_eq id a.attempt_id ≡ false → find_attempt id db.attempts ≡ some b → P id b)
      → find_attempt id after ≡ some b
      → P id b
  by_row P id b self others h = elim (Bool-cases (str_eq id a.attempt_id)) [
    | inl same ↦
        let e = (str_eq_iff id a.attempt_id).0 same in
        let h' : find_attempt a.attempt_id after ≡ some b = rw e at h in
        let e' : f a ≡ b = cc (h', found_after) in
        subst (λ x. P x b) (sym e) (subst (λ x. P a.attempt_id x) e' self)
    | inr other ↦ others other (sym (other_after id other) ∙ h)
  ]

  -- A backed reservation is that of `a`, or of another row.
  is_self :
      (id : String) (b : Attempt)
      → str_eq id a.attempt_id ≡ true
      → find_attempt id db.attempts ≡ some b
      → b ≡ a
  is_self id b same h =
      let h' : find_attempt a.attempt_id db.attempts ≡ some b =
        rw ((str_eq_iff id a.attempt_id).0 same) at h in
      cc (h', found)

  module _ (events : List AttemptEvent) (w : (f a).wallet_id ≡ a.wallet_id)
      (s : (f a).selected_note_ids ≡ a.selected_note_ids)
      (h : holds (f a).state ≡ holds a.state) where
    IsBacked-same :
        (net wallet note id : String)
        → IsBacked network db net wallet note id
        → IsBacked network (record db { attempts = after; events = events }) net wallet note id
    IsBacked-same net wallet note id k = elim (Bool-cases (str_eq id a.attempt_id)) [
      | inl same ↦
          let e = is_self id k.by same k.found in
          record {
            by = f a;
            found = rw ((str_eq_iff id a.attempt_id).0 same) found_after;
            holding = h ∙ (sym (ap (λ (x : Attempt). holds x.state) e) ∙ k.holding);
            net_eq = k.net_eq;
            wallet_eq = k.wallet_eq ∙ (ap (λ (x : Attempt). x.wallet_id) e ∙ sym w);
            selected =
                rw s (subst (λ (x : Attempt). mem note x.selected_note_ids ≡ true) e k.selected);
          }
      | inr other ↦ record {
        by = k.by;
        found = other_after id other ∙ k.found;
        holding = k.holding;
        net_eq = k.net_eq;
        wallet_eq = k.wallet_eq;
        selected = k.selected;
      }
    ]

    -- The update leaves the holding, the wallet and the notes.
    pub Inv-same : Inv network (record db { attempts = after; events = events })
    Inv-same = record {
      keyed = v.keyed;
      held = λ id b note fb hb mb.
          by_row
            (λ i x.
              holds x.state ≡ true
              → mem note x.selected_note_ids ≡ true
              → owner network x.wallet_id note db.reservations ≡ some i)
            id b (λ hx mx. rw w (v.held a.attempt_id a note found (sym h ∙ hx) (rw s at mx)))
            (λ other fb' hx mx. v.held id b note fb' hx mx) fb hb mb;
      backed =
          λ net wallet note id o. IsBacked-same net wallet note id (v.backed net wallet note id o);
    }

  module _ (events : List AttemptEvent) (h : holds (f a).state ≡ false) where
    -- The attempt ends, and its reservations are deleted.
    pub Inv-release : Inv network (record db {
      attempts = after;
      reservations = delete_reservations a.attempt_id db.reservations;
      events = events;
    })
    Inv-release = record {
      keyed = IsKeyed-delete a.attempt_id db.reservations v.keyed;
      held = λ id b note fb hb mb.
          by_row
            (λ i x.
              holds x.state ≡ true
              → mem note x.selected_note_ids ≡ true
              → owner network x.wallet_id note (delete_reservations a.attempt_id db.reservations)
                ≡ some i)
            id b (λ hx mx. cc (h, hx))
            (λ other fb' hx mx.
              owner-delete_ne a.attempt_id id network b.wallet_id note db.reservations other
                (v.held id b note fb' hx mx))
            fb hb mb;
      backed = λ net wallet note id o.
          let k =
            v.backed net wallet note id
              (owner-delete_back a.attempt_id id net wallet note db.reservations v.keyed o) in
          elim (Bool-cases (str_eq id a.attempt_id)) [
            | inl same ↦ absurd (
                owner-delete_self a.attempt_id net wallet note db.reservations
                  (rw ((str_eq_iff id a.attempt_id).0 same) at o))
            | inr other ↦ record {
              by = k.by;
              found = other_after id other ∙ k.found;
              holding = k.holding;
              net_eq = k.net_eq;
              wallet_eq = k.wallet_eq;
              selected = k.selected;
            }
          ];
    }

  -- The attempt starts to hold the notes that it now selects, in the rows `rows`.
  module _ (rows : List Reservation) (events : List AttemptEvent) (keyed : IsKeyed rows)
      (was : holds a.state ≡ false) (h : holds (f a).state ≡ true)
      (kept : (net wallet note x : String)
        → owner net wallet note db.reservations ≡ some x
        → owner net wallet note rows ≡ some x)
      (taken : (note : String)
        → mem note (f a).selected_note_ids ≡ true
        → owner network (f a).wallet_id note rows ≡ some a.attempt_id)
      (only : (net wallet note x : String)
        → owner net wallet note rows ≡ some x
        → (owner net wallet note db.reservations ≡ some x)
          ⊎ ((net ≡ network)
              × (wallet ≡ (f a).wallet_id)
              × (mem note (f a).selected_note_ids ≡ true)
              × (x ≡ a.attempt_id))) where
    IsBacked-old :
        (net wallet note id : String)
        → IsBacked network db net wallet note id
        → IsBacked network
            (record db { attempts = after; reservations = rows; events = events })
            net
            wallet
            note
            id
    IsBacked-old net wallet note id k = elim (Bool-cases (str_eq id a.attempt_id)) [
      | inl same ↦
          let e = ap (λ (x : Attempt). holds x.state) (is_self id k.by same k.found) in
          absurd (cc (e, k.holding, was))
      | inr other ↦ record {
        by = k.by;
        found = other_after id other ∙ k.found;
        holding = k.holding;
        net_eq = k.net_eq;
        wallet_eq = k.wallet_eq;
        selected = k.selected;
      }
    ]

    pub Inv-reserve :
        Inv network (record db { attempts = after; reservations = rows; events = events })
    Inv-reserve = record {
      keyed = keyed;
      held = λ id b note fb hb mb.
          by_row
            (λ i x.
              holds x.state ≡ true
              → mem note x.selected_note_ids ≡ true
              → owner network x.wallet_id note rows ≡ some i)
            id b (λ hx mx. taken note mx)
            (λ other fb' hx mx. kept network b.wallet_id note id (v.held id b note fb' hx mx)) fb hb
            mb;
      backed = λ net wallet note id o. elim (only net wallet note id o) [
        | inl old ↦ IsBacked-old net wallet note id (v.backed net wallet note id old)
        | inr new ↦ record {
          by = f a;
          found = rw new.3 found_after;
          holding = h;
          net_eq = new.0;
          wallet_eq = new.1;
          selected = new.2;
        }
      ];
    }
