-- ===== src/Connectivity/Examples.antt =====
-- Runs of the ladder and of the tracker, and the theorems about them at concrete inputs.
use i_pulse.Base.{ℕ, pos, ◌<◌, ◌≡◌, ◌↔◌, refl, Bool, true, false, List, [], ◌∷◌, ◌+◌, arith}
use i_pulse.Connectivity.Evidence.{Evidence, internet_outage, local_interface_fail}
use i_pulse.Connectivity.Classify.{classify}
use i_pulse.Connectivity.Classify.Ladder.{
  InterfaceBroken, LowerSound, classify_lower_layers, outage_despite_https,
}
use i_pulse.Connectivity.Tracker.{new_tracker, run, observe, begin, at_least_one}
use i_pulse.Connectivity.Tracker.History.{failure_streak, opens_on_streak_iff}

-- A wired host with everything reachable but two of its five HTTPS endpoints.
abbrev wired : Evidence
wired = record {
  loopback_ok = true;
  interface_up = true;
  interface_name = "eth0";
  interface_type = "ethernet";
  carrier_present = true;
  has_routable_addr = true;
  local_ip = "192.0.2.7";
  wifi_associated = false;
  wifi_signal_dbm = pos 0;
  wifi_weak = false;
  default_route_present = true;
  gateway = "192.0.2.1";
  gateway_reachable = true;
  gateway_method = "icmp";
  dns_servers_configured = 2;
  dns_servers_tested = 2;
  dns_servers_failed = 0;
  dns_resolves = true;
  dns_failed_servers = [];
  fallback_dns_resolves = false;
  ip_literals_tested = 3;
  ip_literals_reachable = 3;
  unreachable_literals = [];
  https_tested = 5;
  https_reachable = 3;
  unreachable_https = [];
  captive_portal_suspected = false;
  vpn_active = false;
}

-- The gateway ignores probes and the literals are filtered, while HTTPS works.
abbrev filtered : Evidence
filtered = record wired { gateway_reachable = false; ip_literals_reachable = 0 }

filtered_runs : classify filtered ≡ internet_outage
unfolding classify
filtered_runs = refl

wired-LowerSound : LowerSound wired
wired-LowerSound = (λ h. ground arith, refl, λ h. ground arith)

classify_lower_layers_example :
    (classify filtered ≡ local_interface_fail) ↔ InterfaceBroken filtered
classify_lower_layers_example = (classify_lower_layers filtered).0

outage_despite_https_example :
    (0 < filtered.https_reachable)
    × (filtered.gateway_reachable ≡ false)
    × (filtered.ip_literals_reachable ≡ 0)
outage_despite_https_example = outage_despite_https filtered filtered_runs

-- Two failures open an outage, two successes close it.
abbrev flap : List (Bool × ℕ)
flap = (true, 10) ∷ (false, 20) ∷ (true, 30) ∷ (false, 40) ∷ []

outage_opens : (observe (run (new_tracker (pos 2) (pos 2)) flap) false 50).1 ≡ begin
unfolding run observe new_tracker
outage_opens = refl

opens_on_streak_iff_example :
    let t = run (new_tracker (pos 2) (pos 2)) flap in
    ((observe t false 50).1 ≡ begin)
    ↔ ((t.is_open ≡ false) × (failure_streak 0 flap + 1 ≡ at_least_one (pos 2)))
opens_on_streak_iff_example = opens_on_streak_iff (pos 2) (pos 2) flap 50
