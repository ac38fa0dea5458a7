-- ===== src/Storage/Seal/Recorded.antt =====
-- How a seal comes off.
use juno_exchange_gateway.Storage.Seal.Steps.{
  start, then_step, MetadataSteps, by_begin, by_bind, by_unseal, by_others,
}
use juno_exchange_gateway.Storage.Seal.{
  bind_first, seal_again, Metadata, begin_installation_recovery, bind_installation,
  coordinator_recovery_sealed, is_blank, unseal_coordinator_recovery, unsealed_before,
}
use mathlib.Core.Path.{subst}
use juno_exchange_gateway.Prelude.{
  Bool, Option-cases, String, ap, arith, inl, inr, none, some, str_eq_iff, str_eq_refl, true, ℕ,
  ◌∙◌, ◌≡◌, ◌⊎◌, Bool-cases,
}

-- An unsealing in the sequence from `m` to `after`: it took the seal of the installation off, and what
-- it recorded is on record since.
pub record WasUnsealed (m after : Metadata) : Type 0 where
  pub before : Metadata
  pub unsealed : Metadata
  pub id : String
  pub reference : String
  pub at : ℕ
  pub steps_before : MetadataSteps m before
  pub sealed_before : coordinator_recovery_sealed before ≡ some true
  pub unseal_eq : unseal_coordinator_recovery id reference at before ≡ some (true, unsealed)
  pub steps_after : MetadataSteps unsealed after
  pub seal_eq : after.coordinator_recovery_seal ≡ none
  pub installation_eq : after.installation_id ≡ some id
  pub reference_eq : after.reconciliation_reference ≡ some reference
  pub at_eq : after.unsealed_at ≡ some at

-- sealed for the installation, or unsealed by an unsealing that is on record
data Guarded (m after : Metadata) : Type 0 where
  sealed :
      (id : String)
      → after.coordinator_recovery_seal ≡ some id
      → after.installation_id ≡ some id
      → Guarded m after
  recorded : WasUnsealed m after → Guarded m after

begin-Guarded :
    (id : String) (m mid after : Metadata)
    → Guarded m mid
    → begin_installation_recovery id mid ≡ some after
    → Guarded m after
unfolding begin_installation_recovery is_blank
begin-Guarded id m mid after g h = elim (Option-cases mid.recovery_installation_id) [
  | inr (existing, e) ↦ let i : mid ≡ after = ground (arith, h, e) in subst (Guarded m) i g
  | inl e ↦ elim g [
    | sealed s x y ↦ absurd (ground (arith, h, e, y))
    | recorded w ↦ absurd (let y = w.installation_eq in ground (arith, h, e, y))
  ]
]

bind-Guarded :
    (id : String) (seal : Bool) (m mid after : Metadata)
    → Guarded m mid
    → bind_installation id seal mid ≡ some after
    → Guarded m after
unfolding bind_installation bind_first seal_again
bind-Guarded id seal m mid after (sealed s x y) h =
    let i : mid ≡ after = ground (arith, h, x, y) in subst (Guarded m) i (sealed s x y)
bind-Guarded id seal m mid after (recorded w) h =
    let x = w.seal_eq in
    let y = w.installation_eq in
    elim (Bool-cases seal) [
      | inr n ↦ let i : mid ≡ after = ground (arith, h, x, y, n) in subst (Guarded m) i (recorded w)
      | inl t ↦
          let f : after.coordinator_recovery_seal ≡ some id = ground (arith, h, x, y, t) in
          let k : w.id ≡ id = (str_eq_iff w.id id).0 (ground (arith, h, x, y, t)) in
          let g : after.installation_id ≡ mid.installation_id = ground (arith, h, x, y, t) in
          sealed id f (g ∙ y ∙ ap some k)
    ]

sealed_true :
    (id : String) (m : Metadata)
    → m.coordinator_recovery_seal ≡ some id
    → m.installation_id ≡ some id
    → coordinator_recovery_sealed m ≡ some true
unfolding coordinator_recovery_sealed
sealed_true id m x y = ground (arith, x, y, str_eq_refl id)

-- of sealed metadata
unseal-WasUnsealed :
    (s id reference : String) (at : ℕ) (changed : Bool) (m mid after : Metadata)
    → mid.coordinator_recovery_seal ≡ some s
    → mid.installation_id ≡ some s
    → MetadataSteps m mid
    → unseal_coordinator_recovery id reference at mid ≡ some (changed, after)
    → WasUnsealed m after
unfolding unseal_coordinator_recovery
unseal-WasUnsealed s id reference at changed m mid after x y steps h =
    let c : changed ≡ true = ground (arith, h, x, y) in
    let k : s ≡ id = (str_eq_iff s id).0 (ground (arith, h, x, y)) in
    let g : after.installation_id ≡ mid.installation_id = ground (arith, h, x, y) in
    record {
      before = mid;
      unsealed = after;
      id = id;
      reference = reference;
      at = at;
      steps_before = steps;
      sealed_before = sealed_true s mid x y;
      unseal_eq = h ∙ ap (λ b. some (b, after)) c;
      steps_after = start;
      seal_eq = ground (arith, h, x, y);
      installation_eq = g ∙ y ∙ ap some k;
      reference_eq = ground (arith, h, x, y);
      at_eq = ground (arith, h, x, y);
    }

unseal-Guarded :
    (id reference : String) (at : ℕ) (changed : Bool) (m mid after : Metadata)
    → Guarded m mid
    → MetadataSteps m mid
    → unseal_coordinator_recovery id reference at mid ≡ some (changed, after)
    → Guarded m after
unfolding unseal_coordinator_recovery unsealed_before
unseal-Guarded id reference at changed m mid after (sealed s x y) steps h =
    recorded (unseal-WasUnsealed s id reference at changed m mid after x y steps h)
unseal-Guarded id reference at changed m mid after (recorded w) steps h =
    let x = w.seal_eq in
    let y = w.installation_eq in
    let i : mid ≡ after = ground (arith, h, x, y) in subst (Guarded m) i (recorded w)

others-WasUnsealed :
    (n : ℕ) (m mid : Metadata) → WasUnsealed m mid → WasUnsealed m (record mid { others = n })
others-WasUnsealed n m mid w = record {
  before = w.before;
  unsealed = w.unsealed;
  id = w.id;
  reference = w.reference;
  at = w.at;
  steps_before = w.steps_before;
  sealed_before = w.sealed_before;
  unseal_eq = w.unseal_eq;
  steps_after = then_step w.steps_after (by_others n);
  seal_eq = w.seal_eq;
  installation_eq = w.installation_eq;
  reference_eq = w.reference_eq;
  at_eq = w.at_eq;
}

steps-Guarded :
    (m : Metadata) {after : Metadata} → Guarded m m → MetadataSteps m after → Guarded m after
steps-Guarded m g start = g
steps-Guarded m g (then_step {mid = mid} {after = after} s (by_begin id h)) =
    begin-Guarded id m mid after (steps-Guarded m g s) h
steps-Guarded m g (then_step {mid = mid} {after = after} s (by_bind id seal h)) =
    bind-Guarded id seal m mid after (steps-Guarded m g s) h
steps-Guarded m g (then_step {mid = mid} {after = after} s (by_unseal id reference at changed h)) =
    unseal-Guarded id reference at changed m mid after (steps-Guarded m g s) s h
steps-Guarded m g (then_step {mid = mid} s (by_others n)) = elim (steps-Guarded m g s) [
  | sealed id x y ↦ sealed id x y
  | recorded w ↦ recorded (others-WasUnsealed n m mid w)
]

-- A coordinator that is sealed after a recovery is sealed after any operations on the metadata, or one
-- of these operations was an unsealing of the sealed coordinator for the installation that the
-- database belongs to, and the reference and the time that this unsealing was given are the ones on
-- record. That holds also where recoveries seal the coordinator again in between.
pub sealed_until_recorded :
    (m : Metadata) {after : Metadata}
    → coordinator_recovery_sealed m ≡ some true
    → MetadataSteps m after
    → (coordinator_recovery_sealed after ≡ some true) ⊎ WasUnsealed m after
unfolding coordinator_recovery_sealed
sealed_until_recorded m {after} h s = elim (Option-cases m.coordinator_recovery_seal) [
  | inl e ↦ absurd (ground (arith, h, e))
  | inr (seal, e) ↦ elim (Option-cases m.installation_id) [
    | inl b ↦ absurd (ground (arith, h, e, b))
    | inr (id, b) ↦
        let k : seal ≡ id = (str_eq_iff seal id).0 (ground (arith, h, e, b)) in
        elim (steps-Guarded m (sealed id (e ∙ ap some k) b) s) [
          | sealed x f g ↦ inl (sealed_true x after f g)
          | recorded w ↦ inr w
        ]
  ]
]
