-- ===== src/Storage/Seal/Steps.antt =====
-- Sequences of operations on the installation's metadata.
use mathlib.Core.Path.{subst}
use juno_exchange_gateway.Storage.Seal.{
  Metadata, begin_installation_recovery, bind_installation, is_blank, unseal_coordinator_recovery,
  valid_installation_id, bind_first, seal_again, unsealed_before,
}
use juno_exchange_gateway.Prelude.{
  Bool, String, none, some, true, ℕ, ◌≡◌, Option-cases, Bool-cases, ap, arith, inl, inr, refl,
  str_eq_iff, ◌∙◌,
}

-- An operation that succeeds, `by_others` a change of the other tables.
pub data MetadataStep (m : Metadata) : Metadata → Type 0 where
  by_begin :
      {after : Metadata} (id : String)
      → begin_installation_recovery id m ≡ some after
      → MetadataStep m after
  by_bind :
      {after : Metadata} (id : String) (seal : Bool)
      → bind_installation id seal m ≡ some after
      → MetadataStep m after
  by_unseal :
      {after : Metadata} (id reference : String) (at : ℕ) (changed : Bool)
      → unseal_coordinator_recovery id reference at m ≡ some (changed, after)
      → MetadataStep m after
  by_others : (n : ℕ) → MetadataStep m (record m { others = n })

pub data MetadataSteps (m : Metadata) : Metadata → Type 0 where
  start : MetadataSteps m m
  then_step :
      {mid after : Metadata} → MetadataSteps m mid → MetadataStep mid after → MetadataSteps m after

-- The seal is the installation's, and a bound database has no recovery marker.
pub record IsConsistent (m : Metadata) : Type 0 where
  pub seal_bound : (s : String) → m.coordinator_recovery_seal ≡ some s → m.installation_id ≡ some s
  pub no_marker : (id : String) → m.installation_id ≡ some id → m.recovery_installation_id ≡ none
  pub valid : (id : String) → m.installation_id ≡ some id → valid_installation_id id ≡ true

begin-IsConsistent :
    (id : String) (m after : Metadata)
    → IsConsistent m
    → begin_installation_recovery id m ≡ some after
    → IsConsistent after
unfolding begin_installation_recovery is_blank
begin-IsConsistent id m after c h = elim (Option-cases m.recovery_installation_id) [
  | inr (existing, e) ↦ let i : m ≡ after = ground (arith, h, e) in subst IsConsistent i c
  | inl e ↦ elim (Option-cases m.installation_id) [
    | inr (bound, b) ↦ absurd (ground (arith, h, e, b))
    | inl b ↦
        let i : record m { recovery_installation_id = some id } ≡ after = ground (arith, h, e, b) in
        subst IsConsistent i (record {
          seal_bound = c.seal_bound;
          no_marker = λ x y. absurd (cc (b, y));
          valid = c.valid;
        })
  ]
]

bind_first-IsConsistent :
    (id : String) (seal : Bool) (m after : Metadata)
    → IsConsistent m
    → valid_installation_id id ≡ true
    → m.installation_id ≡ none
    → bind_first id seal m ≡ some after
    → IsConsistent after
unfolding bind_first
bind_first-IsConsistent id seal m after c v b h = elim (Option-cases m.recovery_installation_id) [
  | inl e ↦ absurd (ground (arith, h, e))
  | inr (recovery, e) ↦ elim (Option-cases m.coordinator_recovery_seal) [
    | inr (s, f) ↦ absurd (let k = c.seal_bound s f in ground (arith, b, k))
    | inl f ↦ elim (Bool-cases seal) [
      | inl t ↦
          let i : record m {
            installation_id = some id;
            recovery_installation_id = none;
            coordinator_recovery_seal = some id;
          }
              ≡ after =
            ground (arith, h, e, f, t) in
          subst IsConsistent i (record {
            seal_bound = λ s y. y;
            no_marker = λ x y. refl;
            valid = λ x y. let k : id ≡ x = cc y in subst (λ z. valid_installation_id z ≡ true) k v;
          })
      | inr t ↦
          let i : record m { installation_id = some id; recovery_installation_id = none } ≡ after =
            ground (arith, h, e, f, t) in
          subst IsConsistent i (record {
            seal_bound = λ s y. absurd (cc (f, y));
            no_marker = λ x y. refl;
            valid = λ x y. let k : id ≡ x = cc y in subst (λ z. valid_installation_id z ≡ true) k v;
          })
    ]
  ]
]

seal_again-IsConsistent :
    (id : String) (m after : Metadata)
    → IsConsistent m
    → m.installation_id ≡ some id
    → seal_again id m ≡ some after
    → IsConsistent after
unfolding seal_again
seal_again-IsConsistent id m after c b h = elim (Option-cases m.coordinator_recovery_seal) [
  | inr (s, e) ↦ let i : m ≡ after = ground (arith, h, e) in subst IsConsistent i c
  | inl e ↦
      let i : record m { coordinator_recovery_seal = some id } ≡ after = ground (arith, h, e) in
      subst IsConsistent i
        (record { seal_bound = λ s y. b ∙ y; no_marker = c.no_marker; valid = c.valid })
]

bind-IsConsistent :
    (id : String) (seal : Bool) (m after : Metadata)
    → IsConsistent m
    → bind_installation id seal m ≡ some after
    → IsConsistent after
unfolding bind_installation
bind-IsConsistent id seal m after c h = elim (Option-cases m.installation_id) [
  | inl b ↦ bind_first-IsConsistent id seal m after c (ground (arith, h)) b (ground (arith, h, b))
  | inr (existing, b) ↦
      let k : existing ≡ id = (str_eq_iff existing id).0 (ground (arith, h, b)) in
      elim (Bool-cases seal) [
        | inl t ↦ seal_again-IsConsistent id m after c (b ∙ ap some k) (ground (arith, h, b, t))
        | inr t ↦ let i : m ≡ after = ground (arith, h, b, t) in subst IsConsistent i c
      ]
]

unseal-IsConsistent :
    (id reference : String) (at : ℕ) (changed : Bool) (m after : Metadata)
    → IsConsistent m
    → unseal_coordinator_recovery id reference at m ≡ some (changed, after)
    → IsConsistent after
unfolding unseal_coordinator_recovery unsealed_before
unseal-IsConsistent id reference at changed m after c h = elim (Option-cases m.installation_id) [
  | inl b ↦ absurd (ground (arith, h, b))
  | inr (bound, b) ↦ elim (Option-cases m.coordinator_recovery_seal) [
    | inr (s, e) ↦
        let i : record m {
          coordinator_recovery_seal = none;
          reconciliation_reference = some reference;
          unsealed_at = some at;
        }
            ≡ after =
          ground (arith, h, b, e) in
        subst IsConsistent i
          (record { seal_bound = λ s y. absurd (cc y); no_marker = c.no_marker; valid = c.valid })
    | inl e ↦ elim (Option-cases m.reconciliation_reference) [
      | inl r ↦ absurd (ground (arith, h, b, e, r))
      | inr (prior, r) ↦ let i : m ≡ after = ground (arith, h, b, e, r) in subst IsConsistent i c
    ]
  ]
]

-- From consistent metadata, every sequence of the operations keeps it so: the seal names the
-- installation that the database is bound to, that identity is well-formed, and a bound
-- database has no recovery marker.
pub MetadataSteps-IsConsistent :
    (m : Metadata) {after : Metadata} → IsConsistent m → MetadataSteps m after → IsConsistent after
MetadataSteps-IsConsistent m c start = c
MetadataSteps-IsConsistent m c (then_step {mid = mid} {after = after} s (by_begin id h)) =
    begin-IsConsistent id mid after (MetadataSteps-IsConsistent m c s) h
MetadataSteps-IsConsistent m c (then_step {mid = mid} {after = after} s (by_bind id seal h)) =
    bind-IsConsistent id seal mid after (MetadataSteps-IsConsistent m c s) h
MetadataSteps-IsConsistent m c
      (then_step {mid = mid} {after = after} s (by_unseal id reference at changed h)) =
    unseal-IsConsistent id reference at changed mid after (MetadataSteps-IsConsistent m c s) h
MetadataSteps-IsConsistent m c (then_step s (by_others n)) =
    let k = MetadataSteps-IsConsistent m c s in
    record { seal_bound = k.seal_bound; no_marker = k.no_marker; valid = k.valid }
