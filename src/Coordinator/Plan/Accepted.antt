-- ===== src/Coordinator/Plan/Accepted.antt =====
-- What an accepted plan and an accepted signature say.
use juno_exchange_gateway.Prelude.{
  ℕ, ◌<◌, ◌≤◌, ◌≡◌, ◌↔◌, refl, Bool, true, false, Option, some, List, [], ◌∷◌, ◌++◌, String,
  str_eq_iff, arith, ltb, Option-cases, Bool-cases, inl, inr, length,
}
use juno_exchange_gateway.Domain.Network.{Network, node_chain}
use juno_exchange_gateway.Domain.NoteLaws.{IsFresh}
use juno_exchange_gateway.Coordinator.Request.{
  Wallet, Output, CreateRequest, is_split, plan_outputs,
}
use juno_exchange_gateway.Coordinator.Request.Bounds.{amount_of}
use juno_exchange_gateway.Coordinator.Plan.{
  TxPlan, PlanResult, same_output, is_split_change, all_split_change, outputs_ok, notes_ok, plan_ok,
  validate_plan, SignerResult, mem_index, indices_ok, validate_signer_result, plan_kind,
  coin_type_of,
}

-- each output goes to `change`, with a positive amount and no memo
abbrev pub AllChange : String → List Output → Type 0
AllChange change [] = Unit
AllChange change (o ∷ os) =
    (o.to_address ≡ change) × (0 < amount_of o) × (o.memo_hex ≡ "") × AllChange change os

same_output_eq : (a b : Output) → same_output a b ≡ true → a ≡ b
unfolding same_output
same_output_eq a b h = ground (
  arith,
  str_eq_iff a.to_address b.to_address,
  str_eq_iff a.amount_zat b.amount_zat,
  str_eq_iff a.memo_hex b.memo_hex,
)

all_split_change_sound :
    (change : String) (os : List Output) → all_split_change change os ≡ true → AllChange change os
unfolding all_split_change is_split_change
all_split_change_sound change [] h = tt
all_split_change_sound change (o ∷ os) h = ground (
  arith,
  all_split_change_sound change os,
  str_eq_iff o.to_address change,
  str_eq_iff o.memo_hex "",
)

length-zero : (os : List Output) → ltb 0 (length os) ≡ false → os ≡ []
length-zero [] h = refl
length-zero (o ∷ os) h = ground arith

-- The expected outputs come first, unchanged; the rest is change.
pub outputs_ok_sound :
    (split : Bool) (change : String) (expected actual : List Output)
    → outputs_ok split change expected actual ≡ true
    → (extra : List Output) × (actual ≡ expected ++ extra)
      × AllChange change extra
      × (split ≡ true → extra ≡ [])
unfolding outputs_ok
outputs_ok_sound split change [] rest h = (
  rest,
  refl,
  all_split_change_sound change rest (ground arith),
  λ s. length-zero rest (ground arith),
)
outputs_ok_sound split change (e ∷ es) [] h = absurd (cc h)
outputs_ok_sound split change (e ∷ es) (o ∷ os) h = elim (Bool-cases (same_output o e)) [
  | inl s ↦
      let (extra, eq, c, n) = outputs_ok_sound split change es os (ground arith) in
      (extra, cc (same_output_eq o e s, eq), c, n)
  | inr s ↦ absurd (ground arith)
]

pub notes_ok_sound : (seen ns : List String) → notes_ok seen ns ≡ true → IsFresh seen ns
unfolding notes_ok
notes_ok_sound seen [] h = tt
notes_ok_sound seen (n ∷ ns) h = ground (arith, notes_ok_sound (n ∷ seen) ns)

-- The plan that the coordinator reserves and has signed, against the request that was approved.
pub record IsApproved (request : CreateRequest) (wallet : Wallet) (network : Network)
    (change : String) (plan : TxPlan) : Type 0 where
  pub kind_eq : plan.kind ≡ plan_kind request
  pub wallet_eq : plan.wallet_id ≡ wallet.wallet_id
  pub account_eq : plan.account ≡ wallet.account
  pub chain_eq : plan.chain ≡ node_chain network
  pub coin_type_eq : plan.coin_type ≡ coin_type_of network
  pub change_eq : plan.change_address ≡ change
  pub expires : 0 < plan.expiry_height
  pub fresh : IsFresh [] plan.notes
  pub spends : 0 < length plan.notes
  pub output_limit : length plan.outputs ≤ 199
  pub extra : List Output
  pub outputs_eq : plan.outputs ≡ plan_outputs change request ++ extra
  pub extra_change : AllChange change extra
  pub split_exact : is_split request ≡ true → extra ≡ []

plan_ok_sound :
    (request : CreateRequest) (wallet : Wallet) (network : Network) (change : String)
    (plan : TxPlan)
    → plan_ok request wallet network change plan ≡ true
    → IsApproved request wallet network change plan
unfolding plan_ok
plan_ok_sound request wallet network change plan h =
    let o : outputs_ok (is_split request) change (plan_outputs change request) plan.outputs ≡ true =
      ground arith in
    let (extra, eq, c, n) =
      outputs_ok_sound (is_split request) change (plan_outputs change request) plan.outputs o in
    record {
      kind_eq = ground (arith, str_eq_iff plan.kind (plan_kind request));
      wallet_eq = ground (arith, str_eq_iff plan.wallet_id wallet.wallet_id);
      account_eq = ground arith;
      chain_eq = ground (arith, str_eq_iff plan.chain (node_chain network));
      coin_type_eq = ground arith;
      change_eq = ground (arith, str_eq_iff plan.change_address change);
      expires = ground arith;
      fresh = notes_ok_sound [] plan.notes (ground arith);
      spends = ground arith;
      output_limit = ground arith;
      extra = extra;
      outputs_eq = eq;
      extra_change = c;
      split_exact = n;
    }

-- An accepted plan is the document that was read, with its digest, fee, expiry and notes. Its kind,
-- wallet, account, chain, coin type and change address are those of the request; its notes are
-- distinct; its outputs are the approved ones, in their order and unchanged, followed only by change
-- to the attempt's own address with no memo, of which a note split has none; and they are at most
-- 199.
pub validate_plan_sound :
    (decode : String → Option TxPlan) (digest_of : String → String) (raw : String)
    (request : CreateRequest) (wallet : Wallet) (network : Network) (change : String)
    (result : PlanResult)
    → validate_plan decode digest_of raw request wallet network change ≡ some result
    → (plan : TxPlan) × (decode raw ≡ some plan)
      × IsApproved request wallet network change plan
      × (result.bytes ≡ raw)
      × (result.digest ≡ digest_of raw)
      × (result.fee_zat ≡ plan.fee_zat)
      × (result.expiry_height ≡ plan.expiry_height)
      × (result.selected_note_ids ≡ plan.notes)
      × (result.output_count ≡ length plan.outputs)
unfolding validate_plan
validate_plan_sound decode digest_of raw request wallet network change result h =
    elim (Option-cases (decode raw)) [
      | inl e ↦ absurd (ground arith)
      | inr (plan, e) ↦ (
        plan,
        e,
        plan_ok_sound request wallet network change plan (ground arith),
        ground arith,
        ground arith,
        ground arith,
        ground arith,
        ground arith,
        ground arith,
      )
    ]

-- no index of the list stands twice in it, or in `seen`, and each is at most 199
abbrev pub IsActionMap : List ℕ → List ℕ → Type 0
IsActionMap seen [] = Unit
IsActionMap seen (i ∷ is) = (i ≤ 199) × (mem_index i seen ≡ false) × IsActionMap (i ∷ seen) is

indices_ok_sound : (seen is : List ℕ) → indices_ok seen is ≡ true → IsActionMap seen is
unfolding indices_ok
indices_ok_sound seen [] h = tt
indices_ok_sound seen (i ∷ is) h = ground (arith, indices_ok_sound (i ∷ seen) is)

indices_ok_complete : (seen is : List ℕ) → IsActionMap seen is → indices_ok seen is ≡ true
unfolding indices_ok
indices_ok_complete seen [] h = refl
indices_ok_complete seen (i ∷ is) h = ground (arith, indices_ok_complete (i ∷ seen) is h.2)

-- A signer's answer is accepted exactly when it maps each output of the plan to an action, all of
-- them distinct and at most 199, and the change action, if any, is at most 199 and none of these.
pub validate_signer_result_iff :
    (r : SignerResult) (count : ℕ)
    → (validate_signer_result r count ≡ true) ↔ (
        (length r.orchard_output_action_indices ≡ count)
        × IsActionMap [] r.orchard_output_action_indices
        × ((c : ℕ)
            → r.orchard_change_action_index ≡ some c
            → (c ≤ 199) × (mem_index c r.orchard_output_action_indices ≡ false)))
unfolding validate_signer_result
validate_signer_result_iff r count = (
  λ h. (
    ground arith,
    indices_ok_sound [] r.orchard_output_action_indices (ground arith),
    λ c e. ground arith,
  ),
  λ h. elim (Option-cases r.orchard_change_action_index) [
    | inl e ↦ ground (arith, indices_ok_complete [] r.orchard_output_action_indices h.1)
    | inr (c, e) ↦
        ground (arith, indices_ok_complete [] r.orchard_output_action_indices h.1, h.2 c e)
  ],
)
