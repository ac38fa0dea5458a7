-- ===== src/Gateway/Ready/Attested.antt =====
-- What the gateway knows when it is ready.
use juno_exchange_gateway.Gateway.Ready.{
  Readiness, ReadyConfig, Upstream, is_at, ready_node_tip, valid_node_tip, complete_through,
  attests, check_ready, check_scanned, check_scanner, same_network, scanner_caught_up,
  scanner_consistent, ready_for,
}
use juno_exchange_gateway.Domain.Network.{
  Network, NodeTip, address_hrp, network_name, node_chain, ScannerHealth,
}
use mathlib.Core.Path.{subst}
use juno_exchange_gateway.Prelude.{
  Bool, Option, ap, arith, false, none, some, str_eq, str_eq_iff, true, ℕ, ◌+◌, ◌≡◌, ◌≤◌,
  Option-cases, inl, inr, refl, sym, ◌-◌, ◌∙◌,
}

pub record IsAttested (cfg : ReadyConfig) (up : Upstream) (r : Readiness) : Type 0 where
  pub scanned : ℕ
  pub tip_eq : up.tip ≡ some r.node
  pub health_eq : up.health ≡ some r.scanner
  pub network_eq : r.network ≡ cfg.network
  pub chain_eq : r.node.network ≡ node_chain cfg.network
  pub synced : r.node.initial_block_download ≡ false
  pub scanner_network : r.scanner.network ≡ network_name cfg.network
  pub prefix_eq : r.scanner.ua_hrp ≡ address_hrp cfg.network
  pub policy_eq : r.scanner.confirmations ≡ some cfg.default_confirmations
  pub scanned_eq : r.scanner.scanned_height ≡ some scanned
  pub same_chain : up.block_hash scanned ≡ some r.scanner.scanned_hash
  pub lag_eq : r.scanner_lag + scanned ≡ r.node.height
  pub lag_reported : r.scanner.scanner_lag ≡ some r.scanner_lag
  pub lag_bound : r.scanner_lag ≤ cfg.max_scanner_lag
  pub spends_known : r.scanner.pending_spends_ready ≡ some true
  pub history_known : cfg.require_complete_history ≡ true → r.scanner.history_complete ≡ some true
  pub wallets_complete : up.completeness scanned ≡ complete_through true

attests_sound : (o : Option Bool) → attests o ≡ true → o ≡ some true
unfolding attests
attests_sound none h = absurd (cc h)
attests_sound (some b) h = ap some h

pub is_at_sound : (o : Option ℕ) (n : ℕ) → is_at o n ≡ true → o ≡ some n
unfolding is_at
is_at_sound none n h = absurd (cc h)
is_at_sound (some m) n h = ground (arith, h)

ready_node_tip_sound :
    (n : Network) (o : Option NodeTip) (tip : NodeTip)
    → ready_node_tip n o ≡ some tip
    → (o ≡ some tip) × (tip.network ≡ node_chain n) × (tip.initial_block_download ≡ false)
unfolding ready_node_tip valid_node_tip
ready_node_tip_sound n none tip h = absurd (cc h)
ready_node_tip_sound n (some t) tip h =
    let i : t ≡ tip = ground (arith, h) in
    let c : str_eq t.network (node_chain n) ≡ true = ground (arith, h) in
    let s : t.initial_block_download ≡ false = ground (arith, h) in
    (
      ap some i,
      subst (λ x. x.network ≡ node_chain n) i ((str_eq_iff t.network (node_chain n)).0 c),
      subst (λ x. x.initial_block_download ≡ false) i s,
    )

-- the facts that the tests on the scanner's report give
scanner_consistent_sound :
    (cfg : ReadyConfig) (tip : NodeTip) (h : ScannerHealth) (scanned : ℕ)
    → scanner_consistent cfg tip h scanned ≡ true
    → (h.network ≡ network_name cfg.network)
      × (h.ua_hrp ≡ address_hrp cfg.network)
      × (h.confirmations ≡ some cfg.default_confirmations)
      × (scanned ≤ tip.height)
unfolding scanner_consistent same_network
scanner_consistent_sound cfg tip h scanned c = (
  (str_eq_iff h.network (network_name cfg.network)).0 (ground (arith, c)),
  (str_eq_iff h.ua_hrp (address_hrp cfg.network)).0 (ground (arith, c)),
  is_at_sound h.confirmations cfg.default_confirmations (ground (arith, c)),
  ground (arith, c),
)

scanner_caught_up_sound :
    (cfg : ReadyConfig) (h : ScannerHealth) (lag : ℕ)
    → scanner_caught_up cfg h lag ≡ true
    → (h.pending_spends_ready ≡ some true)
      × (cfg.require_complete_history ≡ true → h.history_complete ≡ some true)
      × (lag ≤ cfg.max_scanner_lag)
      × (h.scanner_lag ≡ some lag)
unfolding scanner_caught_up
scanner_caught_up_sound cfg h lag c = (
  attests_sound h.pending_spends_ready (ground (arith, c)),
  λ required. attests_sound h.history_complete (ground (arith, c, required)),
  ground (arith, c),
  is_at_sound h.scanner_lag lag (ground (arith, c)),
)

check_scanned_sound :
    (cfg : ReadyConfig) (up : Upstream) (tip : NodeTip) (h : ScannerHealth) (scanned : ℕ)
    (r : Readiness)
    → check_scanned cfg up tip h scanned ≡ ready_for r
    → (up.block_hash scanned ≡ some h.scanned_hash)
      × (scanner_caught_up cfg h (tip.height - scanned) ≡ true)
      × (up.completeness scanned ≡ complete_through true)
      × (r ≡ record {
        network = cfg.network;
        node = tip;
        scanner = h;
        scanner_lag = tip.height - scanned;
        max_scanner_lag = cfg.max_scanner_lag;
      })
unfolding check_scanned
check_scanned_sound cfg up tip h scanned r c = elim (Option-cases (up.block_hash scanned)) [
  | inl n ↦ absurd (ground (arith, c, n))
  | inr (hash, e) ↦
      let same : str_eq h.scanned_hash hash ≡ true = ground (arith, c, e) in
      let up_to : scanner_caught_up cfg h (tip.height - scanned) ≡ true = ground (arith, c, e) in
      (
        e ∙ ap some (sym ((str_eq_iff h.scanned_hash hash).0 same)),
        up_to,
        ground (arith, c, e, same, up_to),
        ground (arith, c, e, same, up_to),
      )
]

-- When the gateway finds itself ready, then the node's tip is of the configured network and not in its
-- initial download, the scanner is of the same network and confirmation policy, the block that it has
-- scanned to is on the node's chain, its lag is the distance to the node's tip and within the
-- configured bound, it knows the pending spends and, where that is required, the whole history, and the
-- registered wallets are complete up to that block.
pub check_ready_sound :
    (cfg : ReadyConfig) (up : Upstream) (r : Readiness)
    → check_ready cfg up ≡ ready_for r
    → IsAttested cfg up r
unfolding check_ready check_scanner
check_ready_sound cfg up r c = elim (Option-cases (ready_node_tip cfg.network up.tip)) [
  | inl n ↦ absurd (ground (arith, c, n))
  | inr (tip, t) ↦ elim (Option-cases up.health) [
    | inl n ↦ absurd (ground (arith, c, t, n))
    | inr (h, e) ↦ elim (Option-cases h.scanned_height) [
      | inl n ↦ absurd (ground (arith, c, t, e, n))
      | inr (scanned, s) ↦
          let consistent : scanner_consistent cfg tip h scanned ≡ true =
            ground (arith, c, t, e, s) in
          let last : check_scanned cfg up tip h scanned ≡ ready_for r =
            ground (arith, c, t, e, s) in
          let node = ready_node_tip_sound cfg.network up.tip tip t in
          let report = scanner_consistent_sound cfg tip h scanned consistent in
          let block = check_scanned_sound cfg up tip h scanned r last in
          let caught_up = scanner_caught_up_sound cfg h (tip.height - scanned) block.1 in
          let under : scanned ≤ tip.height = report.3 in
          subst (λ x. IsAttested cfg up x) (sym block.3)
            (record {
              scanned = scanned;
              tip_eq = node.0;
              health_eq = e;
              network_eq = refl;
              chain_eq = node.1;
              synced = node.2;
              scanner_network = report.0;
              prefix_eq = report.1;
              policy_eq = report.2;
              scanned_eq = s;
              same_chain = block.0;
              lag_eq = omega (arith, under);
              lag_reported = caught_up.3;
              lag_bound = caught_up.2;
              spends_known = caught_up.0;
              history_known = caught_up.1;
              wallets_complete = block.2;
            })
    ]
  ]
]
