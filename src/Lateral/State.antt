-- ===== src/Lateral/State.antt =====
-- internal/lateral/detector.go: the data of the detector and `New`.
use i_pulse.Base.{ℕ, ℤ, pos, pos_part, leb_ℤ, ltb_ℤ, Bool, List, [], String, Option, if◌then◌else◌}

pub record Observation : Type 0 where
  pub time : ℕ
  pub host : Option String
  pub port : ℕ
  pub process : String
  pub pid : ℕ
  pub exe : String
  pub user : String
  pub failed : Bool
  pub protocol : String

pub data FindingKind : Type 0 where
  host_sweep port_scan admin_sweep repeated_failures abnormal_lateral : FindingKind

pub data Confidence : Type 0 where
  low medium high : Confidence

pub record Attempt : Type 0 where
  pub at : ℕ
  pub host : String
  pub port : ℕ
  pub failed : Bool

-- `per_host` has the ports of each host with the instant of the last contact.
pub record ProcessState : Type 0 where
  pub pid : ℕ
  pub exe : String
  pub user : String
  pub attempts : List Attempt
  pub per_host : List (String × List (ℕ × ℕ))

-- Before `New`: thresholds and durations as given.
pub record Config : Type 0 where
  pub window : ℤ
  pub host_sweep_threshold : ℤ
  pub port_scan_threshold : ℤ
  pub failed_threshold : ℤ
  pub admin_ports : List ℕ
  pub admin_sweep_hosts : ℤ
  pub allow_processes : List String
  pub cooldown : ℤ

-- The configuration as `New` has made it, and the state.
pub record Detector : Type 0 where
  pub window : ℕ
  pub host_sweep_threshold : ℕ
  pub port_scan_threshold : ℕ
  pub failed_threshold : ℕ
  pub admin_ports : List ℕ
  pub admin_sweep_hosts : ℕ
  pub allow_processes : List String
  pub cooldown : ℕ
  pub tracked : List (String × ProcessState)
  pub reported : List (String × ℕ)

abbrev at_least_two : ℤ → ℕ → ℕ
at_least_two n default = if ltb_ℤ n (pos 2) then default else pos_part n

abbrev positive : ℤ → ℕ → ℕ
positive d default = if leb_ℤ d (pos 0) then default else pos_part d

-- `New`
unfoldable pub new_detector : Config → Detector
new_detector c = record {
  window = positive c.window 120_000_000_000;
  host_sweep_threshold = at_least_two c.host_sweep_threshold 20;
  port_scan_threshold = at_least_two c.port_scan_threshold 15;
  failed_threshold = at_least_two c.failed_threshold 25;
  admin_ports = c.admin_ports;
  admin_sweep_hosts = at_least_two c.admin_sweep_hosts 5;
  allow_processes = c.allow_processes;
  cooldown = positive c.cooldown 600_000_000_000;
  tracked = [];
  reported = [];
}
