-- ===== src/Events/Catalog/Service.antt =====
-- internal/events/catalog_defs.go: the service part of the catalog.
use i_pulse.Base.{List, [], ◌∷◌}
use i_pulse.Events.Category.{service}
use i_pulse.Events.Severity.{debug, error, info, notice}
use i_pulse.Events.Definition.{Definition, event_definition}
use i_pulse.Events.Catalog.CodesHigh.{
  agent_started, agent_stopped, config_loaded, config_reloaded, config_invalid, service_installed,
  service_removed, database_opened, retention_completed, log_rotated, api_started, api_stopped,
  scheduler_task_skip, privilege_limited, baseline_established, manual_test_requested,
}

unfoldable pub service_events : List Definition
service_events =
    event_definition agent_started "AGENT_STARTED" notice service "The iPulse agent started."
      "Service or foreground start-up completed."
      ("Version" ∷ "Commit" ∷ "BuildDate" ∷ "Platform" ∷ "PID" ∷ "User" ∷ "Elevated" ∷ "ConfigPath"
        ∷ "DataDir" ∷ "Mode" ∷ [])
      "None."
    ∷ event_definition agent_stopped "AGENT_STOPPED" notice service "The iPulse agent stopped."
        "Shutdown signal received and shutdown completed."
        ("Reason" ∷ "Uptime" ∷ "Signal" ∷ "EventsLogged" ∷ "MeasurementsStored" ∷ []) "None."
    ∷ event_definition config_loaded "CONFIG_LOADED" info service
        "Configuration was loaded and validated." "Start-up, or a successful reload."
        ("Path" ∷ "Source" ∷ "Warnings" ∷ "Checksum" ∷ []) "None."
    ∷ event_definition config_reloaded "CONFIG_RELOADED" notice service
        "Configuration was reloaded at runtime."
        "SIGHUP on Linux, or a service control request on Windows."
        ("Path" ∷ "Changed" ∷ "AppliedImmediately" ∷ "RequiresRestart" ∷ [])
        "Some settings (dashboard bind address, database path) need a restart; they are listed."
    ∷ event_definition config_invalid "CONFIG_INVALID" error service
        "Configuration failed validation and was not applied."
        "Validation errors during load or reload." ("Path" ∷ "Errors" ∷ "UsingPrevious" ∷ [])
        "Fix the listed errors; the previous valid configuration stays active."
    ∷ event_definition service_installed "SERVICE_INSTALLED" notice service
        "The iPulse service was installed." "`ipulse service install` completed."
        ("ServiceName" ∷ "DisplayName" ∷ "ExecPath" ∷ "StartType" ∷ "User" ∷ []) "None."
    ∷ event_definition service_removed "SERVICE_REMOVED" notice service
        "The iPulse service was removed." "`ipulse service uninstall` completed."
        ("ServiceName" ∷ "DataRetained" ∷ []) "None."
    ∷ event_definition database_opened "DATABASE_OPENED" info service
        "The local database was opened." "Start-up."
        ("Path" ∷ "SchemaVersion" ∷ "Migrations" ∷ "SizeBytes" ∷ "Journal" ∷ []) "None."
    ∷ event_definition retention_completed "RETENTION_PRUNE_COMPLETED" info service
        "Retention pruning finished." "The retention interval elapsed."
        ("RowsDeleted" ∷ "RowsRolledUp" ∷ "Tables" ∷ "Duration" ∷ "SizeBefore" ∷ "SizeAfter"
          ∷ "Reclaimed" ∷ [])
        "None."
    ∷ event_definition log_rotated "LOG_ROTATED" info service "A log file was rotated."
        "Log file reached logging.max_file_mb, or a scheduled daily rotation occurred."
        ("File" ∷ "Archive" ∷ "SizeBytes" ∷ "Compressed" ∷ "ArchivesRetained" ∷ "ArchivesDeleted"
          ∷ [])
        "None."
    ∷ event_definition api_started "API_STARTED" info service
        "The REST API and dashboard are listening." "Start-up with dashboard.enabled true."
        ("Address" ∷ "Port" ∷ "TLS" ∷ "AuthRequired" ∷ "Loopback" ∷ []) "None."
    ∷ event_definition api_stopped "API_STOPPED" info service "The REST API stopped listening."
        "Shutdown, or a listener error." ("Reason" ∷ "Requests" ∷ "Duration" ∷ []) "None."
    ∷ event_definition scheduler_task_skip "SCHEDULER_TASK_SKIPPED" debug service
        "A scheduled task was skipped because the previous run was still active."
        "Overlapping tick for a single-flight task." ("Task" ∷ "Interval" ∷ "RunningFor" ∷ [])
        "Repeated skips mean the interval is too aggressive for this host or link."
    ∷ event_definition privilege_limited "PRIVILEGE_LIMITED" notice service
        "A monitoring function is degraded because of insufficient privileges."
        "A platform capability probe failed at start-up."
        ("Feature" ∷ "Required" ∷ "Platform" ∷ "Fallback" ∷ "Impact" ∷ [])
        "See docs/security.md for the privilege matrix; the fallback in use is named."
    ∷ event_definition baseline_established "BASELINE_ESTABLISHED" info service
        "A metric baseline became usable." "A metric/time bucket reached baseline.min_observations."
        ("Metric" ∷ "Bucket" ∷ "Observations" ∷ "Mean" ∷ "Median" ∷ "P95" ∷ "StdDev" ∷ [])
        "None. Detection for that metric and bucket starts now."
    ∷ event_definition manual_test_requested "MANUAL_TEST_REQUESTED" info service
        "A test was requested manually." "CLI or dashboard/API request."
        ("Test" ∷ "Source" ∷ "Client" ∷ "Parameters" ∷ []) "None."
    ∷ []
