-- ===== src/Events/Catalog/Traffic.antt =====
-- internal/events/catalog_defs.go: the traffic part of the catalog.
use i_pulse.Base.{List, [], ◌∷◌}
use i_pulse.Events.Category.{traffic}
use i_pulse.Events.Severity.{info, notice, warning}
use i_pulse.Events.Definition.{Definition, event_definition}
use i_pulse.Events.Catalog.CodesLow.{
  bandwidth_spike_download, bandwidth_spike_upload, sustained_bandwidth_usage,
  unusual_outbound_traffic, sustained_upload, large_outbound_transfer, new_high_volume_dest,
  unusual_overnight_traffic, periodic_spike_pattern, traffic_baseline_ready,
  connection_count_anomaly, app_upload_anomaly,
}

unfoldable pub traffic_events : List Definition
traffic_events =
    event_definition bandwidth_spike_download "BANDWIDTH_SPIKE_DOWNLOAD" notice traffic
      "Inbound throughput spiked well above its time-aware baseline."
      "Robust z-score of rx rate exceeded the configured threshold, excluding iPulse's own tests."
      ("Interface" ∷ "CurrentRate" ∷ "BaselineRate" ∷ "Deviation" ∷ "ZScore" ∷ "Bucket"
        ∷ "TopProcess" ∷ [])
      "Correlate with the connections view to identify the source."
    ∷ event_definition bandwidth_spike_upload "BANDWIDTH_SPIKE_UPLOAD" warning traffic
        "Outbound throughput spiked well above its time-aware baseline."
        "Robust z-score of tx rate exceeded the configured threshold, excluding iPulse's own tests."
        ("Interface" ∷ "CurrentRate" ∷ "BaselineRate" ∷ "Deviation" ∷ "ZScore" ∷ "Bucket"
          ∷ "TopProcess" ∷ "TopDestination" ∷ [])
        "Outbound spikes deserve attention: identify the process and destination."
    ∷ event_definition sustained_bandwidth_usage "SUSTAINED_BANDWIDTH_USAGE" notice traffic
        "Elevated throughput persisted for an extended period."
        "Rate above the baseline band continuously for alerts.sustained_bandwidth_seconds."
        ("Interface" ∷ "Direction" ∷ "AverageRate" ∷ "PeakRate" ∷ "Duration" ∷ "BytesTransferred"
          ∷ "TopProcess" ∷ [])
        "Expected for large downloads/backups; investigate if unexplained."
    ∷ event_definition unusual_outbound_traffic "UNUSUAL_OUTBOUND_TRAFFIC" warning traffic
        "Outbound traffic volume is well above the historical pattern for this time."
        "Upload volume over the window exceeds the time-bucket baseline by the configured factor."
        ("Interface" ∷ "WindowBytes" ∷ "BaselineBytes" ∷ "Deviation" ∷ "Bucket" ∷ "TopProcess"
          ∷ "TopDestination" ∷ "Confidence" ∷ [])
        "Metadata only. Verify the responsible process is expected to upload."
    ∷ event_definition sustained_upload "SUSTAINED_UPLOAD" warning traffic
        "A sustained outbound transfer is in progress."
        "Upload rate above the configured floor continuously for alerts.sustained_upload_seconds."
        ("Interface" ∷ "AverageRate" ∷ "Duration" ∷ "BytesSent" ∷ "TopProcess" ∷ "TopDestination"
          ∷ "Confidence" ∷ [])
        "Confirm the transfer is intended (backup, sync, upload)."
    ∷ event_definition large_outbound_transfer "LARGE_OUTBOUND_TRANSFER" warning traffic
        "A single destination received an unusually large outbound volume."
        "Bytes sent to one destination exceeded alerts.large_transfer_mb within the window."
        ("Destination" ∷ "BytesSent" ∷ "Duration" ∷ "Process" ∷ "RemotePort" ∷ "Protocol"
          ∷ "FirstSeen" ∷ "Confidence" ∷ [])
        "Verify the destination and the process. Metadata only; no payload is inspected."
    ∷ event_definition new_high_volume_dest "NEW_HIGH_VOLUME_DESTINATION" warning traffic
        "A destination first seen recently is receiving significant outbound traffic."
        "Destination newer than destinations.new_destination_window with bytes sent above the high-volume floor."
        ("Destination" ∷ "FirstSeen" ∷ "BytesSent" ∷ "BytesReceived" ∷ "Process" ∷ "RemotePort"
          ∷ "ASN" ∷ "Country" ∷ "Confidence" ∷ [])
        "The combination of new and high-volume is the interesting part; verify it."
    ∷ event_definition unusual_overnight_traffic "UNUSUAL_OVERNIGHT_ACTIVITY" notice traffic
        "Significant activity during a normally quiet period."
        "Traffic during the configured quiet hours exceeded that window's baseline."
        ("Window" ∷ "Direction" ∷ "Bytes" ∷ "BaselineBytes" ∷ "Deviation" ∷ "TopProcess"
          ∷ "TopDestination" ∷ [])
        "Often scheduled updates or backups; confirm once and it becomes the baseline."
    ∷ event_definition periodic_spike_pattern "PERIODIC_SPIKE_PATTERN" info traffic
        "Repeating traffic spikes with a regular period were detected."
        "Autocorrelation of spike timestamps found a dominant period with enough repetitions."
        ("Period" ∷ "Occurrences" ∷ "Direction" ∷ "AverageSpike" ∷ "TopProcess" ∷ [])
        "Usually a scheduled task; recorded for context, not as a problem."
    ∷ event_definition traffic_baseline_ready "TRAFFIC_BASELINE_ESTABLISHED" info traffic
        "A traffic baseline reached the minimum observation count and is now active."
        "Enough samples accumulated for a metric/time bucket."
        ("Metric" ∷ "Bucket" ∷ "Observations" ∷ "Mean" ∷ "Median" ∷ "StdDev" ∷ [])
        "None. Detection for that bucket starts now."
    ∷ event_definition connection_count_anomaly "CONNECTION_COUNT_ANOMALY" notice traffic
        "The number of active connections deviates strongly from baseline."
        "Robust z-score of the active connection count exceeded the threshold."
        ("Current" ∷ "BaselineMedian" ∷ "ZScore" ∷ "Bucket" ∷ "TopProcess" ∷ [])
        "Cross-check the connections and destinations views."
    ∷ event_definition app_upload_anomaly "APPLICATION_UPLOAD_ANOMALY" warning traffic
        "One application's upload volume is far above its own history."
        "Per-process upload volume exceeded that process's baseline by the configured factor."
        ("Process" ∷ "PID" ∷ "ExecutablePath" ∷ "User" ∷ "BytesSent" ∷ "BaselineBytes" ∷ "Deviation"
          ∷ "TopDestination" ∷ "Confidence" ∷ [])
        "Verify the application is expected to upload this much."
    ∷ []
