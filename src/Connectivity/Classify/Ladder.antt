-- ===== src/Connectivity/Classify/Ladder.antt =====
-- internal/connectivity/classify.go: which evidence leads to which rung of the ladder.
use text.Mathlib.Text.{◌==◌ as text_eq}
use i_pulse.Base.{◌<◌, ◌≤◌, ◌≡◌, ◌↔◌, ◌⊎◌, true, false, arith}
use i_pulse.Connectivity.Evidence.{
  healthy, internet_outage, gateway_failure, local_interface_fail, routing_failure, Evidence,
}
use i_pulse.Connectivity.Classify.{classify}

-- The interface layer is broken.
abbrev pub InterfaceBroken : Evidence → Type 0
InterfaceBroken e =
    (e.interface_up ≡ false)
    ⊎ (e.has_routable_addr ≡ false)
    ⊎ ((text_eq e.interface_type "wireless" ≡ true)
        × (e.wifi_associated ≡ false)
        × (e.gateway_reachable ≡ false))

-- The gateway layer is broken: nothing on it or beyond it answers.
abbrev pub GatewayBroken : Evidence → Type 0
GatewayBroken e =
    (e.gateway_reachable ≡ false) × (e.ip_literals_reachable ≡ 0) × (e.https_reachable ≡ 0)

-- The layers up to the gateway explain nothing.
abbrev pub LowerSound : Evidence → Type 0
LowerSound e = (¬ InterfaceBroken e) × (e.default_route_present ≡ true) × (¬ GatewayBroken e)

-- The three lower rungs of the ladder, lowest first: a local interface failure is concluded
-- exactly when the interface layer is broken, a routing failure exactly when that layer is sound
-- and no default route is present, and a gateway failure exactly when both are sound and neither
-- the gateway nor anything beyond it answers.
pub classify_lower_layers :
    (e : Evidence)
    → ((classify e ≡ local_interface_fail) ↔ InterfaceBroken e)
      × ((classify e ≡ routing_failure)
          ↔ ((¬ InterfaceBroken e) × (e.default_route_present ≡ false)))
      × ((classify e ≡ gateway_failure)
          ↔ ((¬ InterfaceBroken e) × (e.default_route_present ≡ true) × GatewayBroken e))
unfolding classify
classify_lower_layers e = (
  (λ h. ground arith, λ h. ground arith),
  (λ h. ground arith, λ h. ground arith),
  (λ h. ground arith, λ h. ground arith),
)

-- What the code takes for a working Internet: HTTPS and name resolution work and every IP literal
-- that was tried answers; or every literal answers, no resolver is at fault, no captive portal is
-- suspected and every HTTPS session that was tried completes.
abbrev pub Works : Evidence → Type 0
Works e =
    ((0 < e.https_reachable)
      × (e.dns_resolves ≡ true)
      × ((e.ip_literals_tested ≡ 0) ⊎ (e.ip_literals_reachable ≡ e.ip_literals_tested)))
    ⊎ ((0 < e.ip_literals_reachable)
        × (e.ip_literals_tested ≤ e.ip_literals_reachable)
        × ((e.dns_resolves ≡ true) ⊎ (e.dns_servers_tested ≡ 0))
        × (e.captive_portal_suspected ≡ false)
        × (e.https_tested ≤ e.https_reachable))

-- A healthy conclusion is reached exactly when the interface, the default route and the gateway
-- are not to blame and the Internet works in one of the two ways.
pub classify-healthy_iff : (e : Evidence) → (classify e ≡ healthy) ↔ (LowerSound e × Works e)
unfolding classify
classify-healthy_iff e = (λ h. ground arith, λ h. ground arith)

-- An Internet outage, whose cause text says that there is no connectivity beyond the local device,
-- is concluded only for evidence in which the gateway ignored its probes and no IP literal
-- answered, while some HTTPS session completed.
pub outage_despite_https :
    (e : Evidence)
    → classify e ≡ internet_outage
    → (0 < e.https_reachable) × (e.gateway_reachable ≡ false) × (e.ip_literals_reachable ≡ 0)
unfolding classify
outage_despite_https e h = ground arith

-- Failing HTTPS sessions go unreported when at least one completes, names resolve and every IP
-- literal answers: with the lower layers sound the conclusion is healthy, whatever the number of
-- sessions that were tried.
pub https_loss_hidden :
    (e : Evidence)
    → LowerSound e
    → e.dns_resolves ≡ true
    → e.ip_literals_reachable ≡ e.ip_literals_tested
    → 0 < e.https_reachable
    → e.https_reachable < e.https_tested
    → classify e ≡ healthy
unfolding classify
https_loss_hidden e s d l h p = ground arith
