-- ===== src/Events/Catalog/Internal.antt =====
-- internal/events/catalog_defs.go: the internal part of the catalog.
use i_pulse.Base.{List, [], ◌∷◌}
use i_pulse.Events.Category.{internal}
use i_pulse.Events.Severity.{critical, error, warning}
use i_pulse.Events.Definition.{Definition, event_definition}
use i_pulse.Events.Catalog.CodesHigh.{
  internal_error, database_error, collector_error, probe_error, panic_recovered, log_sink_error,
  task_timeout, config_watch_err,
}

unfoldable pub internal_events : List Definition
internal_events =
    event_definition internal_error "INTERNAL_ERROR" error internal
      "An unexpected internal error occurred." "An error path with no more specific event."
      ("Component" ∷ "Operation" ∷ "Error" ∷ []) "Report with the surrounding log context."
    ∷ event_definition database_error "DATABASE_ERROR" error internal "A database operation failed."
        "SQLite returned an error." ("Operation" ∷ "Table" ∷ "Error" ∷ "Retries" ∷ [])
        "Check disk space and file permissions on the data directory."
    ∷ event_definition collector_error "COLLECTOR_ERROR" warning internal
        "A collector failed to gather data." "A platform call or parse failed."
        ("Collector" ∷ "Error" ∷ "Consecutive" ∷ "Platform" ∷ [])
        "Isolated failures are tolerated; repeated ones indicate a platform problem."
    ∷ event_definition probe_error "PROBE_ERROR" warning internal
        "A network probe failed for a reason other than connectivity loss."
        "Socket, TLS or protocol error not attributable to an outage."
        ("Probe" ∷ "Target" ∷ "Error" ∷ "Consecutive" ∷ []) "Check the probe target configuration."
    ∷ event_definition panic_recovered "PANIC_RECOVERED" critical internal
        "A panic was recovered; the agent kept running."
        "A goroutine panicked and the supervisor recovered it."
        ("Component" ∷ "Panic" ∷ "Stack" ∷ [])
        "This is a bug. Please report it with the stack field."
    ∷ event_definition log_sink_error "LOG_SINK_ERROR" error internal "A log sink failed to write."
        "Filesystem, journald or Event Log write failure." ("Sink" ∷ "Error" ∷ "Dropped" ∷ [])
        "Check disk space and permissions; other sinks continue."
    ∷ event_definition task_timeout "TASK_TIMEOUT" warning internal
        "A scheduled task exceeded its timeout and was cancelled." "Task context deadline exceeded."
        ("Task" ∷ "Timeout" ∷ "Interval" ∷ [])
        "Frequent timeouts suggest an unreachable target or too tight a timeout."
    ∷ event_definition config_watch_err "CONFIG_WATCH_ERROR" warning internal
        "The configuration file could not be watched for changes." "Watcher setup or read failure."
        ("Path" ∷ "Error" ∷ []) "Reload manually with SIGHUP or a service restart."
    ∷ []
