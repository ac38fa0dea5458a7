-- ===== src/Storage/Seal.antt =====
-- internal/storage/sqlite/sqlite.go: the installation that a database belongs to, and the seal that a
-- recovery leaves on the coordinator. The rows of `metadata` are fields; `others` is the number of rows
-- in all other tables and of other keys.
pub mod Steps
pub mod Recorded
use juno_exchange_gateway.Domain.Hex.{codes, is_lower_hex64}
use juno_exchange_gateway.Prelude.{
  Bool, Option, String, false, if◌then◌else◌, none, not, some, str_eq, true, ℕ, ◌&&◌, ◌==◌,
}

pub record Metadata : Type 0 where
  pub installation_id : Option String
  pub recovery_installation_id : Option String
  pub coordinator_recovery_seal : Option String
  pub reconciliation_reference : Option String
  pub unsealed_at : Option ℕ
  pub others : ℕ

-- `validateInstallationID`
unfoldable pub valid_installation_id : String → Bool
valid_installation_id s = is_lower_hex64 (codes s)

-- `InstallationID`: an error, or the identity where there is one
unfoldable pub installation_id : Metadata → Option (Option String)
installation_id m = elim m.installation_id [
  | none ↦ some none
  | some id ↦ if valid_installation_id id then some (some id) else none
]

abbrev is_absent {ℓ} : {A : Type ℓ} → Option A → Bool
is_absent none = true
is_absent (some a) = false

-- the count of `BeginInstallationRecovery` for a database without a recovery marker
unfoldable pub is_blank : Metadata → Bool
is_blank m =
    (m.others == 0)
    && is_absent m.installation_id
    && is_absent m.coordinator_recovery_seal
    && is_absent m.reconciliation_reference
    && is_absent m.unsealed_at

-- `BeginInstallationRecovery`
unfoldable pub begin_installation_recovery : String → Metadata → Option Metadata
begin_installation_recovery id m =
    if not (valid_installation_id id) then none else elim m.recovery_installation_id [
      | some existing ↦ if str_eq existing id then some m else none
      | none ↦ if is_blank m then some (record m { recovery_installation_id = some id }) else none
    ]

-- `INSERT … ON CONFLICT(key) DO NOTHING`, and the comparison of the seal
seal_again : String → Metadata → Option Metadata
seal_again id m = elim m.coordinator_recovery_seal [
  | none ↦ some (record m { coordinator_recovery_seal = some id })
  | some seal ↦ if str_eq seal id then some m else none
]

-- the first binding, of a database whose recovery marker is the installation's
bind_first : String → Bool → Metadata → Option Metadata
bind_first id seal m = elim m.recovery_installation_id [
  | none ↦ none
  | some recovery ↦
      if not (str_eq recovery id)
      then none
      else if not seal
      then some (record m { installation_id = some id; recovery_installation_id = none })
      else elim m.coordinator_recovery_seal [
        | some s ↦ none
        | none ↦ some (record m {
          installation_id = some id;
          recovery_installation_id = none;
          coordinator_recovery_seal = some id;
        })
      ]
]

-- `bindInstallation`: `BindInstallation` without a seal, `BindRecoveredInstallation` with one
unfoldable pub bind_installation : String → Bool → Metadata → Option Metadata
unfolding seal_again bind_first
bind_installation id seal m =
    if not (valid_installation_id id) then none else elim m.installation_id [
      | none ↦ bind_first id seal m
      | some existing ↦
          if not (str_eq existing id) then none else if seal then seal_again id m else some m
    ]

-- `CoordinatorRecoverySealed`
unfoldable pub coordinator_recovery_sealed : Metadata → Option Bool
coordinator_recovery_sealed m = elim m.coordinator_recovery_seal [
  | none ↦ some false
  | some seal ↦ elim m.installation_id [
    | none ↦ none
    | some id ↦ if str_eq seal id then some true else none
  ]
]

-- an unsealing again, with the same reference
unsealed_before : String → Metadata → Option (Bool × Metadata)
unsealed_before reference m = elim m.reconciliation_reference [
  | none ↦ none
  | some prior ↦ if str_eq prior reference then some (false, m) else none
]

-- `UnsealCoordinatorRecovery`
unfoldable pub unseal_coordinator_recovery :
    String → String → ℕ → Metadata → Option (Bool × Metadata)
unfolding unsealed_before
unseal_coordinator_recovery id reference at m =
    if not (valid_installation_id id) then none else elim m.installation_id [
      | none ↦ none
      | some bound ↦ if not (str_eq bound id) then none else elim m.coordinator_recovery_seal [
        | none ↦ unsealed_before reference m
        | some seal ↦
            if not (str_eq seal id)
            then none
            else some (
              true,
              record m {
                coordinator_recovery_seal = none;
                reconciliation_reference = some reference;
                unsealed_at = some at;
              },
            )
      ]
    ]
