-- ===== src/Tests/Ready.antt =====
-- A node, a scanner and a gateway that is ready.
use juno_exchange_gateway.Storage.Wallets.{Tables, find_wallet, set_backfill_progress}
use juno_exchange_gateway.Gateway.Registry.Complete.{check_ready-AllScanned, AllScanned}
use juno_exchange_gateway.Gateway.Registry.{
  complete_through_height, ConfiguredWallet, ScannerBackfill, all_registered, complete_from,
  same_wallet,
}
use juno_exchange_gateway.Gateway.Requests.{equal_fold, is_txid}
use juno_exchange_gateway.Gateway.Ready.Attested.{IsAttested}
use juno_exchange_gateway.Gateway.Ready.{
  Readiness, ReadyConfig, Upstream, check_ready, check_scanned, check_scanner, is_at,
  ready_node_tip, same_network, scanner_caught_up, scanner_consistent, valid_node_tip, attests,
}
use juno_exchange_gateway.Domain.Hex.{is_digit, is_lower_hex, is_lower_hex64}
use juno_exchange_gateway.Domain.Network.{
  regtest, NodeTip, ScannerHealth, address_hrp, network_name, node_chain,
}
use juno_exchange_gateway.Prelude.{String, false, refl, some, str_eq, true, [], ℕ, ◌∷◌, ◌≡◌}

abbrev pub block_hash : String
block_hash = "bbbbbbbbbbbbbbbbbbbbbbbbbbbbbbbbbbbbbbbbbbbbbbbbbbbbbbbbbbbbbbbb"

abbrev pub deposit_txid : String
deposit_txid = "cccccccccccccccccccccccccccccccccccccccccccccccccccccccccccccccc"

abbrev pub epoch : String
epoch = "eeeeeeeeeeeeeeeeeeeeeeeeeeeeeeeeeeeeeeeeeeeeeeeeeeeeeeeeeeeeeeee"

abbrev pub regtest_config : ReadyConfig
regtest_config = record {
  network = regtest;
  default_confirmations = 2;
  require_complete_history = true;
  max_scanner_lag = 3;
}

abbrev pub regtest_tip : NodeTip
regtest_tip = record {
  network = "regtest";
  height = 120;
  hash = block_hash;
  block_time = 5;
  headers = 120;
  initial_block_download = false;
  progress_in_range = true;
}

abbrev pub regtest_health : ScannerHealth
regtest_health = record {
  status = "OK";
  network = "regtest";
  ua_hrp = "jregtest";
  confirmations = some 2;
  event_epoch = epoch;
  ready = some true;
  node_height = some 120;
  scanned_height = some 119;
  scanned_hash = block_hash;
  scanner_lag = some 1;
  max_ready_lag = some 3;
  history_complete = some true;
  pending_spends_ready = some true;
}

abbrev hot_wallet : ConfiguredWallet
hot_wallet = record { wallet_id = "hot"; ufvk_fingerprint = deposit_txid; birthday_height = 10 }

abbrev backfilled : ScannerBackfill
backfilled = record {
  backfill_status = λ w. some (
      some (record {
        ufvk_fingerprint = deposit_txid;
        birthday_height = 10;
        next_height = 120;
        state = "complete";
      }));
  backfill = λ w tip batch. some 120;
  upsert_wallet = λ w. true;
}

abbrev wallet_tables : Tables
wallet_tables = record {
  wallets =
      record {
        wallet_id = "hot";
        network = "regtest";
        ufvk_fingerprint = deposit_txid;
        birthday_height = 10;
        next_backfill_height = 110;
        next_address_index = 0;
      }
      ∷ [];
  addresses = [];
}

abbrev pub upstream : Upstream
upstream = record {
  ping = true;
  tip = some regtest_tip;
  health = some regtest_health;
  block_hash = λ n. some block_hash;
  completeness =
      λ n. (complete_through_height backfilled ("hot" ∷ []) (hot_wallet ∷ []) n wallet_tables).0;
}

abbrev pub regtest_ready : Readiness
regtest_ready = record {
  network = regtest;
  node = regtest_tip;
  scanner = regtest_health;
  scanner_lag = 1;
  max_scanner_lag = 3;
}

check_ready-AllScanned_example :
    IsAttested regtest_config upstream regtest_ready
    × ((n : ℕ) × (regtest_health.scanned_height ≡ some n)
        × AllScanned backfilled n (hot_wallet ∷ []))
unfolding check_ready ready_node_tip valid_node_tip str_eq node_chain is_txid is_lower_hex64
    is_lower_hex check_scanner equal_fold scanner_consistent same_network network_name address_hrp
    is_at check_scanned scanner_caught_up is_digit attests complete_through_height all_registered
    complete_from same_wallet set_backfill_progress find_wallet
check_ready-AllScanned_example =
    check_ready-AllScanned regtest_config upstream backfilled ("hot" ∷ []) (hot_wallet ∷ [])
      wallet_tables regtest_ready refl refl
