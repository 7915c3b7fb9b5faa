-- ===== src/Lateral/Evaluate/Crossing.antt =====
-- internal/lateral/detector.go: what it means that a finding has crossed its threshold, and the steps that keep it.
use Prim.{⊥}
use i_pulse.Base.{
  ◌∙◌, ℕ, ◌*◌, ◌≤◌, ◌<◌, ◌≡◌, ◌⊎◌, inl, inr, refl, Bool, true, false, List, [], ◌∷◌, String, All,
  All-append, length, if◌then◌else◌, Bool-cases, get, string_eq,
}
use i_pulse.Lateral.State.{
  Detector, ProcessState, FindingKind, host_sweep, port_scan, admin_sweep, repeated_failures,
  abnormal_lateral,
}
use i_pulse.Lateral.Report.{should_report, rests, full_key}
use i_pulse.Lateral.Tally.Counts.{AreHosts, at_port, failures}
use i_pulse.Lateral.Observe.{or_empty, empty_process}
use i_pulse.Lateral.Evaluate.{Finding, raise, then_more}

-- The thresholds of a detector, none of which an operation changes.
pub record Same (c d : Detector) : Type 0 where
  pub sweep : d.host_sweep_threshold ≡ c.host_sweep_threshold
  pub scan : d.port_scan_threshold ≡ c.port_scan_threshold
  pub failures : d.failed_threshold ≡ c.failed_threshold
  pub admin : d.admin_sweep_hosts ≡ c.admin_sweep_hosts
  pub admin_ports : d.admin_ports ≡ c.admin_ports

abbrev pub Among : {A : Type 0} → A → List A → Type 0
Among x [] = ⊥
Among x (y ∷ ys) = (x ≡ y) ⊎ Among x ys

-- What a finding of each kind says of the attempts of its process: the hosts that it counts are all the
-- different ones of the attempts, or of those to administration ports; the ports, those held of one
-- host; the failures, those among the attempts. They reach the threshold of the kind, and a sweep of
-- administration ports has also seen a failure, or twice the hosts.
abbrev pub Crossed : Detector → ProcessState → FindingKind → Finding → Type 0
Crossed c st host_sweep f =
    (hosts : List String) × AreHosts (λ a. true) st.attempts hosts
    × (f.distinct_hosts ≡ length hosts)
    × (c.host_sweep_threshold ≤ length hosts)
Crossed c st port_scan f =
    (ports : List (ℕ × ℕ)) × Among (f.target_host, ports) st.per_host
    × (f.distinct_ports ≡ length ports)
    × (c.port_scan_threshold ≤ length ports)
Crossed c st admin_sweep f =
    (hosts : List String) × AreHosts (at_port c.admin_ports) st.attempts hosts
    × (f.distinct_hosts ≡ length hosts)
    × (c.admin_sweep_hosts ≤ length hosts)
    × ((0 < failures st.attempts) ⊎ (c.admin_sweep_hosts * 2 ≤ length hosts))
Crossed c st repeated_failures f =
    (f.failed ≡ failures st.attempts) × (c.failed_threshold ≤ failures st.attempts)
Crossed c st abnormal_lateral f = ⊥

-- The same, of the process of the finding in a table of processes.
abbrev pub HasCrossed : Detector → List (String × ProcessState) → Finding → Type 0
HasCrossed c m f = Crossed c (or_empty empty_process (get f.process m)) f.kind f

-- The thresholds are the same, and the table is this one.
abbrev pub Still : Detector → List (String × ProcessState) → Detector → Type 0
Still c m d = Same c d × (d.tracked ≡ m)

-- A step that keeps the thresholds and raises only findings that have crossed them.
unfoldable pub Fair : Detector → List (String × ProcessState) → Detector × List Finding → Type 0
Fair c m (d, fs) = Still c m d × All (HasCrossed c m) fs

pub keep_thresholds :
    {c d e : Detector}
    → Same c d
    → e.host_sweep_threshold ≡ d.host_sweep_threshold
    → e.port_scan_threshold ≡ d.port_scan_threshold
    → e.failed_threshold ≡ d.failed_threshold
    → e.admin_sweep_hosts ≡ d.admin_sweep_hosts
    → e.admin_ports ≡ d.admin_ports
    → Same c e
keep_thresholds h a b x y z = record {
  sweep = a ∙ h.sweep;
  scan = b ∙ h.scan;
  failures = x ∙ h.failures;
  admin = y ∙ h.admin;
  admin_ports = z ∙ h.admin_ports;
}

should_report-Still :
    (c : Detector) (m : List (String × ProcessState)) (d : Detector) (key : String)
    (kind : FindingKind) (now : ℕ)
    → Still c m d
    → Still c m (should_report d key kind now).0
unfolding should_report
should_report-Still c m d key kind now h =
    elim (Bool-cases (rests d.cooldown now (get (full_key kind key) d.reported))) [
      | inl waits ↦ rw waits h
      | inr due ↦ rw due (keep_thresholds h.0 refl refl refl refl refl, h.1)
    ]

pub raise-Fair :
    (c : Detector) (m : List (String × ProcessState)) (d : Detector) (crossed : Bool) (key : String)
    (now : ℕ) (f : Finding)
    → Still c m d
    → (crossed ≡ true → HasCrossed c m f)
    → Fair c m (raise crossed key now f d)
unfolding Fair
raise-Fair c m d false key now f h may = (h, tt)
raise-Fair c m d true key now f h may = (should_report-Still c m d key f.kind now h, reported_all)
  where
    reported_all : All (HasCrossed c m) (if (should_report d key f.kind now).1 then f ∷ [] else [])
    reported_all = elim (Bool-cases (should_report d key f.kind now).1) [
      | inl due ↦ rw due (may refl, tt)
      | inr waits ↦ rw waits tt
    ]

pub then_more-Fair :
    (c : Detector) (m : List (String × ProcessState)) (r : Detector × List Finding)
    (k : Detector → Detector × List Finding)
    → Fair c m r
    → ((d : Detector) → Still c m d → Fair c m (k d))
    → Fair c m (then_more r k)
unfolding Fair
then_more-Fair c m (d, fs) k (same, crossed) next =
    ((next d same).0, All-append (HasCrossed c m) fs (k d).1 crossed (next d same).1)
