-- ===== src/Lateral/Report.antt =====
-- internal/lateral/detector.go: `shouldReport` and `pruneReported`.
pub mod Cooldowns
use Prim.Native.String.{◌++◌ as append}
use i_pulse.Base.{
  ℕ, ◌+◌, ◌*◌, Bool, true, false, not, String, Option, none, some, ltb, if◌then◌else◌, get, put,
  retain, string_eq,
}
use i_pulse.Lateral.State.{
  Detector, FindingKind, host_sweep, port_scan, admin_sweep, repeated_failures, abnormal_lateral,
}

unfoldable pub kind_name : FindingKind → String
kind_name host_sweep = "internal-host-sweep"
kind_name port_scan = "possible-port-scan"
kind_name admin_sweep = "remote-admin-protocol-sweep"
kind_name repeated_failures = "repeated-internal-failures"
kind_name abnormal_lateral = "abnormal-lateral-connections"

pub full_key : FindingKind → String → String
full_key kind key = append (kind_name kind) (append "|" key)

-- The last report is still within the cooldown.
abbrev pub rests : ℕ → ℕ → Option ℕ → Bool
rests cooldown now none = false
rests cooldown now (some last) = ltb now (last + cooldown)

-- `shouldReport`
unfoldable pub should_report : Detector → String → FindingKind → ℕ → Detector × Bool
should_report d key kind now =
    let full = full_key kind key in
    if rests d.cooldown now (get full d.reported)
    then (d, false)
    else (record d { reported = put full now d.reported }, true)

-- Not before the cutoff, four cooldowns ago.
abbrev pub recent_report : ℕ → ℕ → String → ℕ → Bool
recent_report cooldown now key at = not (ltb (at + 4 * cooldown) now)

-- `pruneReported`
unfoldable pub prune_reported : Detector → ℕ → Detector
prune_reported d now = record d { reported = retain (recent_report d.cooldown now) d.reported }
