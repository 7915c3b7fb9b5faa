-- ===== src/Events/Severity.antt =====
-- internal/events/severity.go. `Severity` is an integer in the source; the six declared values are
-- the constructors, and the guards against others, which no code forms, have no counterpart.
pub mod Levels
use i_pulse.Base.{
  ℕ, Bool, true, false, String, List, [], ◌∷◌, Option, none, some, string_eq, if◌then◌else◌,
}

pub data Severity : Type 0 where
  debug info notice warning error critical : Severity

unfoldable pub severity_name : Severity → String
severity_name debug = "DEBUG"
severity_name info = "INFO"
severity_name notice = "NOTICE"
severity_name warning = "WARNING"
severity_name error = "ERROR"
severity_name critical = "CRITICAL"

unfoldable pub label : Severity → String
label debug = "DEBUG"
label info = "INFO"
label notice = "NOTICE"
label warning = "WARN"
label error = "ERROR"
label critical = "CRIT"

-- The declared order, from the least severe.
unfoldable pub rank : Severity → ℕ
rank debug = 0
rank info = 1
rank notice = 2
rank warning = 3
rank error = 4
rank critical = 5

unfoldable pub syslog : Severity → ℕ
syslog debug = 7
syslog info = 6
syslog notice = 5
syslog warning = 4
syslog error = 3
syslog critical = 2

one_of : String → List String → Bool
one_of s [] = false
one_of s (t ∷ ts) = let rest = one_of s ts in if string_eq.beq s t then true else rest

-- The switch of `ParseSeverity`; `none` is its error.
by_name : String → Option Severity
unfolding one_of
by_name s =
    if one_of s ("DEBUG" ∷ "DBG" ∷ "TRACE" ∷ [])
    then some debug
    else if one_of s ("INFO" ∷ "INFORMATION" ∷ "INFORMATIONAL" ∷ [])
    then some info
    else if one_of s ("NOTICE" ∷ "NOTE" ∷ [])
    then some notice
    else if one_of s ("WARN" ∷ "WARNING" ∷ [])
    then some warning
    else if one_of s ("ERR" ∷ "ERROR" ∷ [])
    then some error
    else if one_of s ("CRIT" ∷ "CRITICAL" ∷ "FATAL" ∷ "ALERT" ∷ "EMERG" ∷ [])
    then some critical
    else none

-- `ParseSeverity`; `upper_trimmed` is `strings.ToUpper` after `strings.TrimSpace`.
unfoldable pub parse_severity : (String → String) → String → Option Severity
unfolding by_name one_of
parse_severity upper_trimmed s = by_name (upper_trimmed s)
