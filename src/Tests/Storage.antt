-- ===== src/Tests/Storage.antt =====
-- The seal of a recovered database, and a balance.
use juno_exchange_gateway.Domain.Hex.{is_lower_hex, is_lower_hex64}
use juno_exchange_gateway.Storage.Seal.Recorded.{sealed_until_recorded, WasUnsealed}
use juno_exchange_gateway.Storage.Seal.{
  Metadata, coordinator_recovery_sealed, unseal_coordinator_recovery, valid_installation_id,
}
use juno_exchange_gateway.Domain.Balance.{Balance, balance_sums, balance_sums_iff}
use juno_exchange_gateway.Storage.Seal.Steps.{start, then_step, MetadataSteps, by_unseal}
use juno_exchange_gateway.Prelude.{
  String, arith, none, refl, some, true, ◌+◌, ◌↔◌, ◌≡◌, ◌⊎◌, str_eq,
}

abbrev installation : String
installation = "dddddddddddddddddddddddddddddddddddddddddddddddddddddddddddddddd"

abbrev sealed_metadata : Metadata
sealed_metadata = record {
  installation_id = some installation;
  recovery_installation_id = none;
  coordinator_recovery_seal = some installation;
  reconciliation_reference = none;
  unsealed_at = none;
  others = 3;
}

abbrev unsealed_metadata : Metadata
unsealed_metadata = record {
  installation_id = some installation;
  recovery_installation_id = none;
  coordinator_recovery_seal = none;
  reconciliation_reference = some "case 7";
  unsealed_at = some 50;
  others = 3;
}

unsealing : MetadataSteps sealed_metadata unsealed_metadata
unfolding unseal_coordinator_recovery valid_installation_id is_lower_hex64 is_lower_hex str_eq
unsealing = then_step start (by_unseal installation "case 7" 50 true refl)

sealed_until_recorded_example :
    (coordinator_recovery_sealed unsealed_metadata ≡ some true)
    ⊎ WasUnsealed sealed_metadata unsealed_metadata
unfolding coordinator_recovery_sealed str_eq
sealed_until_recorded_example = sealed_until_recorded sealed_metadata refl unsealing

abbrev balance : Balance
balance = record {
  wallet_id = "hot";
  recipient_address = "jregtest1abc";
  available_zat = 30;
  pending_incoming_zat = 5;
  pending_outgoing_zat = 7;
  total_unspent_zat = 42;
  min_confirmations = 2;
  as_of_node_height = 120;
  as_of_scanner_height = 119;
  scanner_lag = 1;
}

balance_sums_iff_example : (balance_sums balance ≡ true) ↔ (
    balance.available_zat + balance.pending_incoming_zat + balance.pending_outgoing_zat
    ≡ balance.total_unspent_zat)
balance_sums_iff_example = balance_sums_iff balance (record {
  available_bound = omega arith;
  incoming_bound = omega arith;
  outgoing_bound = omega arith;
  total_bound = omega arith;
})
