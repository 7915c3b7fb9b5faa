-- ===== src/Connectivity/Evidence.antt =====
-- internal/connectivity/classify.go: `Classification`, `Evidence` and its two predicates.
-- The JSON tags and `GatewayRTTMS`, a float that no function of the package reads back, are left
-- out. Counts of tests are natural numbers.
use i_pulse.Base.{ℕ, ℤ, Bool, List, String, ltb}

pub data Classification : Type 0 where
  healthy internet_outage isp_outage dns_failure gateway_failure : Classification
  local_interface_fail wifi_degradation partial_connectivity routing_failure : Classification
  captive_portal unknown : Classification

pub record Evidence : Type 0 where
  -- Layer 1: the local device.
  pub loopback_ok : Bool
  -- Layer 2: the network interface.
  pub interface_up : Bool
  pub interface_name : String
  pub interface_type : String
  pub carrier_present : Bool
  pub has_routable_addr : Bool
  pub local_ip : String
  pub wifi_associated : Bool
  pub wifi_signal_dbm : ℤ
  pub wifi_weak : Bool
  -- Layer 3: the default gateway.
  pub default_route_present : Bool
  pub gateway : String
  pub gateway_reachable : Bool
  pub gateway_method : String
  -- Layer 4: DNS.
  pub dns_servers_configured : ℕ
  pub dns_servers_tested : ℕ
  pub dns_servers_failed : ℕ
  pub dns_resolves : Bool
  pub dns_failed_servers : List String
  pub fallback_dns_resolves : Bool
  -- Layer 5: the ISP path, tested with IP literals.
  pub ip_literals_tested : ℕ
  pub ip_literals_reachable : ℕ
  pub unreachable_literals : List String
  -- Layer 6: the Internet, tested with full HTTPS sessions.
  pub https_tested : ℕ
  pub https_reachable : ℕ
  pub unreachable_https : List String
  pub captive_portal_suspected : Bool
  -- Context.
  pub vpn_active : Bool

unfoldable pub external_ip_reachable : Evidence → Bool
external_ip_reachable e = ltb 0 e.ip_literals_reachable

unfoldable pub https_reachable_any : Evidence → Bool
https_reachable_any e = ltb 0 e.https_reachable
