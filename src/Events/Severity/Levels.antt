-- ===== src/Events/Severity/Levels.antt =====
-- internal/events/severity.go: the levels against their names and their syslog codes.
use i_pulse.Base.{◌+◌, ◌≤◌, ◌<◌, ◌≡◌, ◌↔◌, String, some, arith}
use i_pulse.Events.Severity.{
  Severity, debug, info, notice, warning, error, critical, severity_name, label, rank, syslog,
  parse_severity,
}

-- `upper_trimmed` leaves the names and labels of the severities as they are.
abbrev pub KeepsNames : (String → String) → Type 0
KeepsNames f = (s : Severity) → (f (severity_name s) ≡ severity_name s) × (f (label s) ≡ label s)

-- Both spellings of a severity are read back as that severity, and so severities of one name or one
-- label are the same.
pub parse_severity-name :
    (upper_trimmed : String → String) (s : Severity)
    → KeepsNames upper_trimmed
    → (parse_severity upper_trimmed (severity_name s) ≡ some s)
      × (parse_severity upper_trimmed (label s) ≡ some s)
unfolding parse_severity severity_name label
parse_severity-name f debug keeps = (rw (keeps debug).0, rw (keeps debug).1)
parse_severity-name f info keeps = (rw (keeps info).0, rw (keeps info).1)
parse_severity-name f notice keeps = (rw (keeps notice).0, rw (keeps notice).1)
parse_severity-name f warning keeps = (rw (keeps warning).0, rw (keeps warning).1)
parse_severity-name f error keeps = (rw (keeps error).0, rw (keeps error).1)
parse_severity-name f critical keeps = (rw (keeps critical).0, rw (keeps critical).1)

syslog-rank : (s : Severity) → syslog s + rank s ≡ 7
unfolding rank syslog
syslog-rank s = ground arith

-- The syslog codes reverse the order of the severities and stay within those of RFC 5424.
pub syslog_reverses :
    (s t : Severity) → ((rank s < rank t) ↔ (syslog t < syslog s)) × (syslog s ≤ 7)
syslog_reverses s t =
    let at_s = syslog-rank s in
    let at_t = syslog-rank t in ((λ h. omega arith, λ h. omega arith), omega arith)
