-- ===== src/Connectivity/Classify.antt =====
-- internal/connectivity/classify.go: `Classify` and the maps from a classification to the cause
-- text, the failure flag and the event code. An early return is a branch; each layer of the ladder
-- is a definition of its own, which hands over to the next.
pub mod Ladder
pub mod Reports
use text.Mathlib.Text.{◌==◌ as text_eq}
use Prim.Native.String.{◌++◌ as text_append}
use i_pulse.Base.{ℕ, ℤ, Bool, true, false, not, ◌&&◌, ◌||◌, String, ltb, ◌==◌, if◌then◌else◌}
use i_pulse.Connectivity.Evidence.{
  Classification, healthy, internet_outage, isp_outage, dns_failure, gateway_failure,
  local_interface_fail, wifi_degradation, partial_connectivity, routing_failure, captive_portal,
  unknown, Evidence, external_ip_reachable, https_reachable_any,
}

-- Layer 5, when some IP literal answers.
path_conclusion : Evidence → Classification
path_conclusion e =
    if ltb 0 e.ip_literals_tested && ltb e.ip_literals_reachable e.ip_literals_tested
    then (if not e.dns_resolves && ltb 0 e.dns_servers_tested
        then dns_failure
        else partial_connectivity)
    else if not e.dns_resolves && ltb 0 e.dns_servers_tested
    then dns_failure
    else if e.captive_portal_suspected
    then captive_portal
    else if ltb 0 e.https_tested && e.https_reachable == 0
    then partial_connectivity
    else if ltb 0 e.https_tested && ltb e.https_reachable e.https_tested
    then partial_connectivity
    else healthy

-- No IP literal answers.
no_path_conclusion : Evidence → Classification
no_path_conclusion e =
    if e.gateway_reachable
    then (if e.wifi_weak
        then wifi_degradation
        else if e.dns_resolves
        then isp_outage
        else if e.fallback_dns_resolves
        then dns_failure
        else isp_outage)
    else internet_outage

-- What follows once the interface and the gateway are not to blame.
upper_conclusion : Evidence → Classification
unfolding path_conclusion no_path_conclusion external_ip_reachable https_reachable_any
upper_conclusion e =
    if https_reachable_any e
      && (e.dns_resolves
          && (e.ip_literals_tested == 0 || e.ip_literals_reachable == e.ip_literals_tested))
    then healthy
    else if external_ip_reachable e
    then path_conclusion e
    else no_path_conclusion e

unfoldable pub classify : Evidence → Classification
unfolding upper_conclusion
classify e =
    if not e.interface_up || not e.has_routable_addr
    then local_interface_fail
    else if text_eq e.interface_type "wireless"
        && (not e.wifi_associated && not e.gateway_reachable)
    then local_interface_fail
    else if not e.default_route_present
    then routing_failure
    else if not e.gateway_reachable
        && (not (external_ip_reachable e) && not (https_reachable_any e))
    then gateway_failure
    else upper_conclusion e

unfoldable pub is_failure : Classification → Bool
is_failure healthy = false
is_failure unknown = false
is_failure _ = true

unfoldable pub event_code : Classification → ℕ
event_code isp_outage = 3004
event_code dns_failure = 3005
event_code gateway_failure = 3006
event_code local_interface_fail = 3007
event_code partial_connectivity = 3008
event_code routing_failure = 3009
event_code wifi_degradation = 3010
event_code _ = 3001

-- `format` stands for fmt's `%d`.
unfoldable pub probable_cause : (ℤ → String) → Classification → Evidence → String
probable_cause format healthy e = "no fault detected"
probable_cause format local_interface_fail e =
    if not e.interface_up
    then "no network interface is up"
    else if not e.carrier_present
    then "interface is up but has no carrier (cable unplugged, or radio not associated)"
    else if not e.has_routable_addr
    then "interface has no routable address (DHCP failure or link-local only)"
    else "local network interface failure"
probable_cause format routing_failure e =
    if e.vpn_active
    then "no usable default route; a VPN or tunnel may have removed or replaced it"
    else "no default route is present"
probable_cause format gateway_failure e =
    text_append "default gateway "
      (text_append e.gateway " is not responding while the interface is up")
probable_cause format dns_failure e =
    if e.fallback_dns_resolves
    then "configured resolvers are failing while public resolvers work"
    else "name resolution is failing while the network path is working"
probable_cause format isp_outage e =
    "gateway and local network are healthy but no external destination is reachable: upstream or ISP failure"
probable_cause format partial_connectivity e =
    "some destinations are reachable and others are not: likely upstream routing or filtering"
probable_cause format wifi_degradation e =
    text_append "wireless signal is weak ("
      (text_append (format e.wifi_signal_dbm) " dBm) and is degrading connectivity")
probable_cause format captive_portal e =
    "HTTPS requests are being intercepted: a captive portal is probably requiring sign-in"
probable_cause format internet_outage e = "no connectivity beyond the local device"
probable_cause format unknown e = "undetermined"
