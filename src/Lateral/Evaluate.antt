-- ===== src/Lateral/Evaluate.antt =====
-- internal/lateral/detector.go: `evaluate`. Addresses are those of `net/netip`: `parse` reads one,
-- `greater` is `Compare(…) > 0`, and `subnet` is the text of its /24 or /64 prefix. The constant
-- interpretations and the names of the administration protocols are left out of a finding.
pub mod Crossing
pub mod Thresholds
use Prim.Native.String.{compare, ◌++◌ as append}
use text.Mathlib.Text.{is_le}
use i_pulse.Base.{
  ℕ, suc, ◌+◌, ◌-◌, ◌*◌, ◌/◌, Bool, true, false, ◌&&◌, ◌||◌, List, [], ◌∷◌, ◌++◌, String, Option,
  none, some, ltb, leb, ◌==◌, if◌then◌else◌, length, take, get, Eq, string_eq, nat_eq,
}
use i_pulse.Lateral.State.{
  Detector, Observation, ProcessState, Attempt, FindingKind, host_sweep, port_scan, admin_sweep,
  repeated_failures, Confidence, low,
}
use i_pulse.Lateral.Grade.{confidence_for, is_sequential}
use i_pulse.Lateral.Report.{should_report, prune_reported}
use i_pulse.Lateral.Tally.{
  Tally, no_tally, tally, add_key, mem, sort_strings, insert_string, sort_nats, insert_nat,
  sorted_keys, sorted_ints, ports_of,
}
use i_pulse.Lateral.Observe.{empty_process, observe_all, trim_detector}

pub record Finding : Type 0 where
  pub kind : FindingKind
  pub time : ℕ
  pub process : String
  pub pid : ℕ
  pub exe : String
  pub user : String
  pub hosts : List String
  pub ports : List ℕ
  pub target_host : String
  pub distinct_hosts : ℕ
  pub distinct_ports : ℕ
  pub attempts : ℕ
  pub failed : ℕ
  pub sequential : Bool
  pub window : ℕ
  pub confidence : Option Confidence
  pub subnets : List String

-- A guard, `shouldReport` under it, and the finding.
abbrev pub raise : Bool → String → ℕ → Finding → Detector → Detector × List Finding
raise crossed key now f d =
    if crossed
    then (let (next, due) = should_report d key f.kind now in (next, if due then f ∷ [] else []))
    else (d, [])

abbrev pub then_more :
    Detector × List Finding → (Detector → Detector × List Finding) → Detector × List Finding
then_more (d, fs) k = let (next, gs) = k d in (next, fs ++ gs)

module _ {A : Type 0} (parse : String → Option A) (greater : A → A → Bool)
    (subnet : A → String) where
  addresses : List String → List A
  addresses [] = []
  addresses (h ∷ l) = elim (parse h) [ none ↦ addresses l | some a ↦ a ∷ addresses l ]

  ascending : List A → ℕ
  ascending [] = 0
  ascending (a ∷ []) = 0
  ascending (a ∷ b ∷ l) = (if greater b a then 1 else 0) + ascending (b ∷ l)

  hosts_in_order : List Attempt → List String → List String
  hosts_in_order [] seen = seen
  hosts_in_order (a ∷ l) seen = hosts_in_order l (add_key a.host seen)

  -- `sequentialHosts`
  unfoldable pub sequential_hosts : List Attempt → Bool
  unfolding addresses ascending hosts_in_order add_key mem
  sequential_hosts attempts =
      let order = addresses (hosts_in_order attempts []) in
      if ltb (length order) 4 then false else leb ((length order - 1) * 3 / 4) (ascending order)

  distinct_subnets : List A → List String → List String
  distinct_subnets [] seen = seen
  distinct_subnets (a ∷ l) seen = distinct_subnets l (add_key (subnet a) seen)

  -- `subnetsOf`
  subnets_of : List String → List String
  unfolding distinct_subnets addresses add_key mem sort_strings
  subnets_of hosts = take 8 (sort_strings (distinct_subnets (addresses hosts) []))

  base_finding : Detector → String → ProcessState → ℕ → Tally → Finding
  unfolding sorted_keys sorted_ints subnets_of
  base_finding d name st now t = record {
    kind = host_sweep;
    time = now;
    process = name;
    pid = st.pid;
    exe = st.exe;
    user = st.user;
    hosts = sorted_keys t.hosts;
    ports = sorted_ints t.ports;
    target_host = "";
    distinct_hosts = length t.hosts;
    distinct_ports = length t.ports;
    attempts = length st.attempts;
    failed = t.failed;
    sequential = false;
    window = d.window;
    confidence = none;
    subnets = subnets_of t.hosts;
  }

  sweep_finding : Detector → ProcessState → Tally → Finding → Finding
  sweep_finding d st t base =
      let sequential = sequential_hosts st.attempts in
      record base {
        kind = host_sweep;
        sequential = sequential;
        confidence =
            some (confidence_for (length t.hosts) d.host_sweep_threshold t.failed sequential);
      }

  admin_finding : Detector → Tally → Finding → Finding
  unfolding sorted_keys sorted_ints
  admin_finding d t base = record base {
    kind = admin_sweep;
    distinct_hosts = length t.admin_hosts;
    hosts = sorted_keys t.admin_hosts;
    ports = sorted_ints t.admin_ports;
    confidence = some (confidence_for (length t.admin_hosts) d.admin_sweep_hosts t.failed false);
  }

  scan_finding : Detector → String → List (ℕ × ℕ) → Tally → Finding → Finding
  unfolding ports_of sort_nats
  scan_finding d host host_ports t base =
      let port_list = sort_nats (ports_of host_ports) in
      let sequential = is_sequential port_list in
      record base {
        kind = port_scan;
        target_host = host;
        distinct_ports = length port_list;
        ports = port_list;
        hosts = host ∷ [];
        sequential = sequential;
        confidence =
            some (confidence_for (length port_list) d.port_scan_threshold t.failed sequential);
      }

  -- The loop over the hosts of a process.
  port_scans :
      String
      → ℕ
      → Tally
      → Finding
      → List (String × List (ℕ × ℕ))
      → Detector
      → Detector × List Finding
  unfolding scan_finding
  port_scans name now t base [] d = (d, [])
  port_scans name now t base ((host, host_ports) ∷ l) d =
      then_more
        (raise (leb d.port_scan_threshold (length host_ports)) (append name (append "|" host)) now
          (scan_finding d host host_ports t base) d)
        (port_scans name now t base l)

  admin_suspicious : Detector → Tally → Bool
  admin_suspicious d t =
      leb d.admin_sweep_hosts (length t.admin_hosts)
      && (ltb 0 t.failed || leb (d.admin_sweep_hosts * 2) (length t.admin_hosts))

  unfoldable pub evaluate_process : String → ProcessState → ℕ → Detector → Detector × List Finding
  unfolding tally base_finding sweep_finding admin_finding port_scans admin_suspicious
  evaluate_process name st now d =
      let t = tally d.admin_ports st.attempts no_tally in
      let base = base_finding d name st now t in
      then_more
        (raise (leb d.host_sweep_threshold (length t.hosts)) name now (sweep_finding d st t base) d)
        (λ d1.
          then_more (raise (admin_suspicious d1 t) name now (admin_finding d1 t base) d1) (λ d2.
            then_more (port_scans name now t base st.per_host d2) (λ d3.
              raise (leb d3.failed_threshold t.failed) name now
                (record base { kind = repeated_failures; confidence = some low }) d3)))

  keys : List (String × ProcessState) → List String
  keys [] = []
  keys ((name, st) ∷ l) = name ∷ keys l

  tracked_state : Option ProcessState → ProcessState
  tracked_state none = empty_process
  tracked_state (some st) = st

  evaluate_names : List String → ℕ → Detector → Detector × List Finding
  unfolding evaluate_process tracked_state
  evaluate_names [] now d = (d, [])
  evaluate_names (name ∷ names) now d =
      then_more (evaluate_process name (tracked_state (get name d.tracked)) now d)
        (evaluate_names names now)

  -- `evaluate`
  unfoldable pub evaluate : Detector → ℕ → Detector × List Finding
  unfolding evaluate_names keys sort_strings
  evaluate d now = evaluate_names (sort_strings (keys d.tracked)) now d

  -- `Observe`
  unfoldable pub observe :
      (String → String)
      → (String → String)
      → Detector
      → List Observation
      → ℕ
      → Detector × List Finding
  observe lower trimmed d obs now =
      let (next, findings) = evaluate (trim_detector (observe_all lower trimmed d obs) now) now in
      (prune_reported next now, findings)
