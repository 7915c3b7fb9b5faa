-- ===== src/Events/Catalog/Connectivity.antt =====
-- internal/events/catalog_defs.go: the connectivity part of the catalog.
use i_pulse.Base.{List, [], ◌∷◌}
use i_pulse.Events.Category.{connectivity}
use i_pulse.Events.Severity.{debug, info, notice, warning}
use i_pulse.Events.Definition.{Definition, event_definition}
use i_pulse.Events.Catalog.CodesLow.{
  speed_test_started, speed_test_completed, speed_test_failed, throughput_sample,
  connectivity_check_ok, connectivity_check_failed, internet_restored, health_score_updated,
  health_score_degraded, speed_endpoint_unavailable, speed_test_skipped_busy,
}

unfoldable pub connectivity_events : List Definition
connectivity_events =
    event_definition speed_test_started "SPEED_TEST_STARTED" debug connectivity
      "A speed test has begun."
      "Scheduled full or lightweight speed test, or a manual test request."
      ("Mode" ∷ "Provider" ∷ "TestServer" ∷ []) "None. Informational."
    ∷ event_definition speed_test_completed "SPEED_TEST_COMPLETED" info connectivity
        "A speed test finished successfully." "Completion of a scheduled or manual speed test."
        ("Download" ∷ "Upload" ∷ "Latency" ∷ "Jitter" ∷ "PacketLoss" ∷ "Status" ∷ "TestServer"
          ∷ "Duration" ∷ "Mode" ∷ "BytesDown" ∷ "BytesUp" ∷ "Streams" ∷ [])
        "None. This is the primary performance record."
    ∷ event_definition speed_test_failed "SPEED_TEST_FAILED" warning connectivity
        "A speed test could not be completed."
        "All configured endpoints failed, or the test was aborted by loss of connectivity."
        ("Mode" ∷ "Provider" ∷ "TestServer" ∷ "Error" ∷ "Attempts" ∷ [])
        "Check Internet connectivity and the configured speed_test endpoints."
    ∷ event_definition throughput_sample "THROUGHPUT_SAMPLE" debug connectivity
        "A lightweight throughput probe completed." "The lightweight throughput interval elapsed."
        ("Download" ∷ "Latency" ∷ "Bytes" ∷ "Duration" ∷ "TestServer" ∷ [])
        "None. Feeds baselines between full tests."
    ∷ event_definition connectivity_check_ok "CONNECTIVITY_CHECK_OK" debug connectivity
        "A periodic health check succeeded."
        "The basic health interval elapsed and at least the required number of targets responded."
        ("Targets" ∷ "Succeeded" ∷ "RTT" ∷ "Method" ∷ []) "None."
    ∷ event_definition connectivity_check_failed "CONNECTIVITY_CHECK_FAILED" warning connectivity
        "A periodic health check failed; diagnostics will run."
        "Fewer than the required number of health targets responded."
        ("Targets" ∷ "Succeeded" ∷ "Failures" ∷ "Method" ∷ [])
        "None required; iPulse escalates to layered diagnostics automatically."
    ∷ event_definition internet_restored "INTERNET_CONNECTIVITY_RESTORED" notice connectivity
        "Internet connectivity returned after a failure."
        "A health check succeeded while an outage was open."
        ("OutageDuration" ∷ "PreviousCause" ∷ "Targets" ∷ [])
        "Review the closed outage record for the probable cause."
    ∷ event_definition health_score_updated "HEALTH_SCORE_UPDATED" debug connectivity
        "The Internet health score was recomputed." "The health score interval elapsed."
        ("Score" ∷ "Availability" ∷ "Download" ∷ "Upload" ∷ "Latency" ∷ "Jitter" ∷ "PacketLoss"
          ∷ "DNS" ∷ [])
        "None."
    ∷ event_definition health_score_degraded "HEALTH_SCORE_DEGRADED" warning connectivity
        "The Internet health score dropped below the configured threshold."
        "Score fell under health.warn_below for the configured persistence."
        ("Score" ∷ "Threshold" ∷ "WorstComponent" ∷ "ComponentScores" ∷ [])
        "Inspect the named worst component on the dashboard."
    ∷ event_definition speed_endpoint_unavailable "SPEED_TEST_ENDPOINT_UNAVAILABLE" notice
        connectivity "A configured speed-test endpoint could not be used."
        "Endpoint selection failed for one endpoint while others remain usable."
        ("Endpoint" ∷ "Error" ∷ []) "Remove or replace the endpoint if the failure persists."
    ∷ event_definition speed_test_skipped_busy "SPEED_TEST_SKIPPED" notice connectivity
        "A scheduled speed test was skipped."
        "The link was already saturated by other traffic, or connectivity was down, or a test was already running."
        ("Reason" ∷ "Mode" ∷ "ObservedMbps" ∷ [])
        "None. Skipping avoids both wasted bandwidth and misleading results."
    ∷ []
