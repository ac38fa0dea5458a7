-- ===== src/Domain/Network.antt =====
-- The networks, and the node's and the scanner's reports on themselves.
use juno_exchange_gateway.Prelude.{ℕ, Bool, Option, String}

pub data Network : Type 0 where
  mainnet testnet regtest : Network

unfoldable pub network_name : Network → String
network_name mainnet = "mainnet"
network_name testnet = "testnet"
network_name regtest = "regtest"

unfoldable pub address_hrp : Network → String
address_hrp mainnet = "j"
address_hrp testnet = "jtest"
address_hrp regtest = "jregtest"

unfoldable pub node_chain : Network → String
node_chain mainnet = "main"
node_chain testnet = "test"
node_chain regtest = "regtest"

-- `progress_in_range` is what the float64 `VerificationProgress` is tested for: a number from 0 to 1.
pub record NodeTip : Type 0 where
  pub network : String
  pub height : ℕ
  pub hash : String
  pub block_time : ℕ
  pub headers : ℕ
  pub initial_block_download : Bool
  pub progress_in_range : Bool

pub record ScannerHealth : Type 0 where
  pub status : String
  pub network : String
  pub ua_hrp : String
  pub confirmations : Option ℕ
  pub event_epoch : String
  pub ready : Option Bool
  pub node_height : Option ℕ
  pub scanned_height : Option ℕ
  pub scanned_hash : String
  pub scanner_lag : Option ℕ
  pub max_ready_lag : Option ℕ
  pub history_complete : Option Bool
  pub pending_spends_ready : Option Bool

pub record Transaction : Type 0 where
  pub txid : String
  pub state : String
  pub confirmations : ℕ
  pub block_hash : String
  pub block_height : Option ℕ
  pub block_time : Option ℕ
  pub expiry_height : Option ℕ
  pub serialized_size : Option ℕ
  pub orchard_actions : Option ℕ
  pub raw_tx_hex : String
