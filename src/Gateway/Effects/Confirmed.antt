-- ===== src/Gateway/Effects/Confirmed.antt =====
-- What an accepted event says about confirmations.
use juno_exchange_gateway.Gateway.Effects.Validate.{
  valid_deposit, valid_outgoing, valid_outgoing_stage, valid_spend,
}
use juno_exchange_gateway.Gateway.Effects.Sanitize.{
  common_effect, effect_of, sanitize_wallet_effect,
}
use juno_exchange_gateway.Gateway.Effects.Lifecycle.{
  lifecycle_at, previous_valid, reached_required_confirmations, valid_lifecycle,
}
use juno_exchange_gateway.Gateway.Effects.{
  event, confirmed, unconfirmed, orphaned, expired, deposit, spend, outgoing_output, Payload,
  PayloadStatus, ScannerEvent, Stage, Subject, WalletEffect, given_as, value_or_zero, kind_of,
}
use juno_exchange_gateway.Prelude.{
  Bool, Option, String, ap, arith, false, none, refl, some, str_eq_iff, true, ℕ, ◌+◌, ◌-◌, ◌<◌, ◌∙◌,
  ◌≡◌, ◌≤◌, Option-cases, inl, inr,
}

-- the stages that a transaction in a block goes through
unfoldable pub in_block : Stage → Bool
in_block event = false
in_block confirmed = true
in_block unconfirmed = true
in_block orphaned = true
in_block expired = false

-- The fields of a stage, for an event at height `at` on a transaction of height `block`: a confirmed
-- one has the required confirmations; an unconfirmed one has too few now, after a greater height at
-- which it had enough; an orphaned one's block is above the height that is left.
pub data IsAtStage (at block required : ℕ) (out : WalletEffect) : Stage → Type 0 where
  at_confirmed :
      out.state ≡ "confirmed"
      → out.confirmed_height ≡ some at
      → block ≤ at
      → out.confirmations ≡ some (at - block + 1)
      → required ≤ at - block + 1
      → IsAtStage at block required out confirmed
  at_unconfirmed :
      (previous : ℕ)
      → out.state ≡ "confirmed"
      → out.rollback_height ≡ some at
      → block ≤ at
      → out.confirmations ≡ some (at - block + 1)
      → at - block + 1 < required
      → out.previous_confirmed_height ≡ some previous
      → at < previous
      → required ≤ previous - block + 1
      → IsAtStage at block required out unconfirmed
  at_orphaned :
      out.state ≡ "orphaned"
      → out.orphaned_at_height ≡ some at
      → at < block
      → value_or_zero out.confirmations ≡ 0
      → IsAtStage at block required out orphaned

-- the fields that the kinds do not touch
record SameLife (p : Payload) (status : PayloadStatus) (state : String) (out : WalletEffect)
    : Type 0 where
  block_same : out.block_height ≡ p.height
  state_same : out.state ≡ state
  confirmations_same : out.confirmations ≡ status.confirmations
  confirmed_same : out.confirmed_height ≡ p.confirmed_height
  rollback_same : out.rollback_height ≡ p.rollback_height
  previous_same : out.previous_confirmed_height ≡ p.previous_confirmed_height
  orphaned_same : out.orphaned_at_height ≡ p.orphaned_at_height

given_as_sound : (o : Option ℕ) (n : ℕ) → given_as o n ≡ true → o ≡ some n
unfolding given_as
given_as_sound none n h = absurd (cc h)
given_as_sound (some m) n h = ground (arith, h)

counted : (o : Option ℕ) (n : ℕ) → value_or_zero o ≡ n + 1 → o ≡ some (n + 1)
unfolding value_or_zero
counted none n h = absurd (omega (arith, h))
counted (some m) n h = ap some h

previous_sound :
    (o : Option ℕ) (at block required : ℕ)
    → previous_valid o at block required ≡ true
    → (previous : ℕ) × (o ≡ some previous) × (at < previous) × (required ≤ previous - block + 1)
unfolding previous_valid reached_required_confirmations
previous_sound none at block required h = absurd (cc h)
previous_sound (some previous) at block required h =
    (previous, refl, ground (arith, h), ground (arith, h))

valid_outgoing-in_block :
    (s : Stage) (e : ScannerEvent) (p : Payload) (status : PayloadStatus) (state : String)
    (required : ℕ)
    → in_block s ≡ true
    → valid_outgoing_stage s e p status state required ≡ true
    → valid_lifecycle s e.height p status state required ≡ true
unfolding valid_outgoing_stage in_block
valid_outgoing-in_block event e p status state required b h = absurd (cc b)
valid_outgoing-in_block expired e p status state required b h = absurd (cc b)
valid_outgoing-in_block confirmed e p status state required b h = ground (arith, h)
valid_outgoing-in_block unconfirmed e p status state required b h = ground (arith, h)
valid_outgoing-in_block orphaned e p status state required b h = ground (arith, h)

effect_of_sound :
    (k : Subject) (s : Stage) (e : ScannerEvent) (p : Payload) (status : PayloadStatus)
    (wallet_id txid state hrp : String) (required : ℕ) (out : WalletEffect)
    → in_block s ≡ true
    → effect_of k s e p status state hrp required (common_effect e p status wallet_id txid state)
      ≡ some out
    → (valid_lifecycle s e.height p status state required ≡ true) × SameLife p status state out
unfolding effect_of valid_deposit valid_spend valid_outgoing common_effect
effect_of_sound deposit s e p status wallet_id txid state hrp required out b h =
    (ground (arith, h), ground (arith, h))
effect_of_sound spend s e p status wallet_id txid state hrp required out b h =
    (ground (arith, h), ground (arith, h))
effect_of_sound outgoing_output s e p status wallet_id txid state hrp required out b h =
    let v : valid_outgoing_stage s e p status state required ≡ true = ground (arith, h) in
    (valid_outgoing-in_block s e p status state required b v, ground (arith, h))

lifecycle_at_sound :
    (s : Stage) (at block required : ℕ) (p : Payload) (status : PayloadStatus) (state : String)
    (out : WalletEffect)
    → in_block s ≡ true
    → SameLife p status state out
    → lifecycle_at s at p block state (value_or_zero status.confirmations) required ≡ true
    → IsAtStage at block required out s
unfolding lifecycle_at in_block
lifecycle_at_sound event at block required p status state out b l h = absurd (cc b)
lifecycle_at_sound expired at block required p status state out b l h = absurd (cc b)
lifecycle_at_sound confirmed at block required p status state out b l h =
    at_confirmed (l.state_same ∙ (str_eq_iff state "confirmed").0 (ground (arith, h)))
      (l.confirmed_same ∙ given_as_sound p.confirmed_height at (ground (arith, h)))
      (ground (arith, h))
      (l.confirmations_same ∙ counted status.confirmations (at - block) (ground (arith, h)))
      (ground (arith, h))
lifecycle_at_sound unconfirmed at block required p status state out b l h =
    let v = previous_sound p.previous_confirmed_height at block required (ground (arith, h)) in
    at_unconfirmed v.0 (l.state_same ∙ (str_eq_iff state "confirmed").0 (ground (arith, h)))
      (l.rollback_same ∙ given_as_sound p.rollback_height at (ground (arith, h)))
      (ground (arith, h))
      (l.confirmations_same ∙ counted status.confirmations (at - block) (ground (arith, h)))
      (ground (arith, h)) (l.previous_same ∙ v.1) v.2 v.3
lifecycle_at_sound orphaned at block required p status state out b l h =
    at_orphaned (l.state_same ∙ (str_eq_iff state "orphaned").0 (ground (arith, h)))
      (l.orphaned_same ∙ given_as_sound p.orphaned_at_height at (ground (arith, h)))
      (ground (arith, h)) (ap value_or_zero l.confirmations_same ∙ ground (arith, h))

-- When the gateway accepts an event on a transaction in a block, confirmed, unconfirmed or orphaned,
-- then the effect it answers with carries the block's height and the fields of that stage: a
-- confirmed one has the required confirmations at the event's height, an unconfirmed one has fewer and
-- had them at a greater height, and an orphaned one's block is above the event's height.
pub sanitize_wallet_effect-IsAtStage :
    (e : ScannerEvent) (wallet_id expected_txid hrp : String) (required : ℕ) (out : WalletEffect)
    (k : Subject) (s : Stage)
    → sanitize_wallet_effect e wallet_id expected_txid hrp required ≡ some out
    → kind_of e.kind ≡ some (k, s)
    → in_block s ≡ true
    → (block : ℕ) × (out.block_height ≡ some block) × IsAtStage e.height block required out s
unfolding sanitize_wallet_effect valid_lifecycle
sanitize_wallet_effect-IsAtStage e wallet_id expected_txid hrp required out k s h n b =
    elim (Option-cases e.payload) [
      | inl a ↦ absurd (ground (arith, h, a))
      | inr (p, a) ↦ elim (Option-cases p.txid) [
        | inl c ↦ absurd (ground (arith, h, a, c))
        | inr (txid, c) ↦ elim (Option-cases p.status) [
          | inl d ↦ absurd (ground (arith, h, a, c, d))
          | inr (status, d) ↦ elim (Option-cases status.state) [
            | inl g ↦ absurd (ground (arith, h, a, c, d, g))
            | inr (state, g) ↦
                let f =
                  effect_of_sound k s e p status wallet_id txid state hrp required out b
                    (ground (arith, h, a, c, d, g, n)) in
                elim (Option-cases p.height) [
                  | inl z ↦ absurd (ground (arith, f.0, z))
                  | inr (block, z) ↦ (
                    block,
                    f.1.block_same ∙ z,
                    lifecycle_at_sound s e.height block required p status state out b f.1
                        (ground (arith, f.0, z)),
                  )
                ]
          ]
        ]
      ]
    ]
