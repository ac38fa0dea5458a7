-- ===== src/Gateway/Ready.antt =====
-- internal/api/api.go: `validateNodeTip`, `readyNode`, `checkReady`, `handleReady` and `handleTip`. The
-- answers of the node, of the scanner and of the registry are arguments; the gateway's own database
-- answers a ping or does not. Heights and lags are at least 0 in the model: the code refuses
-- negative ones.
pub mod Attested
use juno_exchange_gateway.Gateway.Requests.{equal_fold, is_txid}
use juno_exchange_gateway.Domain.Network.{
  Network, NodeTip, ScannerHealth, address_hrp, network_name, node_chain,
}
use juno_exchange_gateway.Gateway.Response.{Response, data_of, fail_with}
use juno_exchange_gateway.Prelude.{
  Bool, Option, String, false, if◌then◌else◌, is_empty, leb, ltb, none, not, some, str_eq, true, ℕ,
  ◌&&◌, ◌-◌, ◌==◌, ◌||◌,
}

pub record ReadyConfig : Type 0 where
  pub network : Network
  pub default_confirmations : ℕ
  pub require_complete_history : Bool
  pub max_scanner_lag : ℕ

-- `completeThrough`'s answer: its error is of an upstream, or of the gateway's own state
pub data Completeness : Type 0 where
  complete_through : Bool → Completeness
  upstream_failed : Completeness
  state_failed : Completeness

-- what the gateway asks for; `none` is an error
pub record Upstream : Type 0 where
  pub ping : Bool
  pub tip : Option NodeTip
  pub health : Option ScannerHealth
  pub block_hash : ℕ → Option String
  pub completeness : ℕ → Completeness

pub record Readiness : Type 0 where
  pub network : Network
  pub node : NodeTip
  pub scanner : ScannerHealth
  pub scanner_lag : ℕ
  pub max_scanner_lag : ℕ

-- the error is the code that is answered
pub data Ready : Type 0 where
  ready_for : Readiness → Ready
  not_ready : String → Ready

-- `validateNodeTip`
unfoldable pub valid_node_tip : Network → NodeTip → Bool
valid_node_tip n tip =
    str_eq tip.network (node_chain n)
    && is_txid tip.hash
    && leb tip.height tip.headers
    && tip.progress_in_range

-- `readyNode`
unfoldable pub ready_node_tip : Network → Option NodeTip → Option NodeTip
ready_node_tip n none = none
ready_node_tip n (some tip) =
    if valid_node_tip n tip && not tip.initial_block_download then some tip else none

-- the scanner's network and address prefix are the configuration's
unfoldable pub same_network : Network → ScannerHealth → Bool
same_network n h =
    not (is_empty h.network)
    && str_eq h.network (network_name n)
    && not (is_empty h.ua_hrp)
    && str_eq h.ua_hrp (address_hrp n)

-- a pointer to a Boolean that is there and true
unfoldable pub attests : Option Bool → Bool
attests none = false
attests (some b) = b

unfoldable pub is_at : Option ℕ → ℕ → Bool
is_at none n = false
is_at (some m) n = m == n

-- what `checkReady` asks of the scanner before the node's hash at the scanned height
unfoldable pub scanner_consistent : ReadyConfig → NodeTip → ScannerHealth → ℕ → Bool
scanner_consistent cfg tip h scanned =
    same_network cfg.network h
    && ltb 0 cfg.default_confirmations
    && is_at h.confirmations cfg.default_confirmations
    && leb scanned tip.height
    && is_txid h.scanned_hash
    && is_txid h.event_epoch

-- and what it asks afterwards
unfoldable pub scanner_caught_up : ReadyConfig → ScannerHealth → ℕ → Bool
scanner_caught_up cfg h lag =
    attests h.ready
    && attests h.pending_spends_ready
    && (not cfg.require_complete_history || attests h.history_complete)
    && leb lag cfg.max_scanner_lag
    && is_at h.scanner_lag lag

-- the end of `checkReady`, from the node's hash at the scanned height
unfoldable pub check_scanned : ReadyConfig → Upstream → NodeTip → ScannerHealth → ℕ → Ready
check_scanned cfg up tip h scanned = elim (up.block_hash scanned) [
  | none ↦ not_ready "node_not_ready"
  | some hash ↦
      if not (str_eq h.scanned_hash hash)
      then not_ready "scanner_not_ready"
      else if not (scanner_caught_up cfg h (tip.height - scanned))
      then not_ready "scanner_not_ready"
      else elim (up.completeness scanned) [
        | upstream_failed ↦ not_ready "scanner_not_ready"
        | state_failed ↦ not_ready "gateway_state_not_ready"
        | complete_through b ↦
            if b
            then ready_for (record {
              network = cfg.network;
              node = tip;
              scanner = h;
              scanner_lag = tip.height - scanned;
              max_scanner_lag = cfg.max_scanner_lag;
            })
            else not_ready "scanner_not_ready"
      ]
]

-- `checkReady` behind `readyNode`
unfoldable pub check_scanner : ReadyConfig → Upstream → NodeTip → Ready
check_scanner cfg up tip = elim up.health [
  | none ↦ not_ready "scanner_not_ready"
  | some h ↦ elim h.scanned_height [
    | none ↦ not_ready "scanner_not_ready"
    | some scanned ↦
        if not (equal_fold h.status "ok")
        then not_ready "scanner_not_ready"
        else if not (scanner_consistent cfg tip h scanned)
        then not_ready "scanner_not_ready"
        else check_scanned cfg up tip h scanned
  ]
]

-- `checkReady`
unfoldable pub check_ready : ReadyConfig → Upstream → Ready
check_ready cfg up =
    if not up.ping
    then not_ready "gateway_state_not_ready"
    else elim (ready_node_tip cfg.network up.tip) [
      | none ↦ not_ready "node_not_ready"
      | some tip ↦ check_scanner cfg up tip
    ]

-- `handleReady`
unfoldable pub handle_ready : ReadyConfig → Upstream → Response Readiness
handle_ready cfg up = elim (check_ready cfg up) [
  | not_ready code ↦ fail_with 503 code true
  | ready_for r ↦ data_of 200 r
]

pub record TipData : Type 0 where
  pub network : Network
  pub tip : NodeTip
  pub scanner_height : Option ℕ
  pub scanner_lag : ℕ

-- a lag below 0 is answered as 0
tip_lag : ℕ → Option ℕ → ℕ
tip_lag height none = 0
tip_lag height (some scanned) = height - scanned

-- `handleTip`
unfoldable pub handle_tip : Network → Option NodeTip → Option ScannerHealth → Response TipData
unfolding tip_lag
handle_tip n none health = fail_with 502 "node_rpc_error" true
handle_tip n (some tip) health =
    if not (valid_node_tip n tip) then fail_with 503 "node_not_ready" true else elim health [
      | none ↦ fail_with 503 "scanner_not_ready" true
      | some h ↦
          if not (same_network n h)
          then fail_with 503 "scanner_not_ready" true
          else data_of 200 (record {
            network = n;
            tip = tip;
            scanner_height = h.scanned_height;
            scanner_lag = tip_lag tip.height h.scanned_height;
          })
    ]
