-- ===== src/Lateral/Examples.antt =====
-- The detector of lateral movement at concrete inputs; addresses are their own text.
use i_pulse.Base.{
  ◌+◌, ◌≡◌, refl, Bool, true, false, List, [], ◌∷◌, String, Option, some, arith, string_eq,
}
use i_pulse.Lateral.State.{Detector, Observation, host_sweep, high, medium}
use i_pulse.Lateral.Grade.{confidence_for}
use i_pulse.Lateral.Grade.Scores.{more_failures_lower}
use i_pulse.Lateral.Report.{should_report, prune_reported}
use i_pulse.Lateral.Report.Cooldowns.{should_report-prune_reported}
use i_pulse.Lateral.Observe.{allowed}

abbrev detector : Detector
detector = record {
  window = 100;
  host_sweep_threshold = 2;
  port_scan_threshold = 15;
  failed_threshold = 25;
  admin_ports = 22 ∷ 445 ∷ [];
  admin_sweep_hosts = 5;
  allow_processes = "nmap" ∷ [];
  cooldown = 1000;
  tracked = [];
  reported = [];
}

abbrev contact : String → String → Observation
contact host process = record {
  time = 10;
  host = some host;
  port = 445;
  process = process;
  pid = 4;
  exe = "";
  user = "";
  failed = true;
  protocol = "tcp";
}

abbrev contacts : List Observation
contacts = contact "192.0.2.1" "worm" ∷ contact "192.0.2.2" "worm" ∷ contact "192.0.2.3" "nmap" ∷ []

abbrev itself : String → String
itself s = s

abbrev as_address : String → Option String
as_address s = some s

abbrev never : String → String → Bool
never a b = false

should_report-prune_reported_example :
    (should_report (prune_reported detector 50) "worm" host_sweep 60).1
    ≡ (should_report detector "worm" host_sweep 60).1
should_report-prune_reported_example =
    (should_report-prune_reported detector 50 60 "worm" host_sweep (omega arith)).0

more_failures_lower_example :
    (confidence_for 20 20 20 true ≡ high) × (confidence_for 20 20 (20 + 1 + 0) true ≡ medium)
more_failures_lower_example = more_failures_lower 20 20 0 (omega arith) (omega arith)

nmap_allowed : allowed itself itself detector "nmap" ≡ true
unfolding allowed
nmap_allowed = refl
