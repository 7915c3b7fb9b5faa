-- ===== src/Events/Catalog/Performance.antt =====
-- internal/events/catalog_defs.go: the performance part of the catalog.
use i_pulse.Base.{List, [], ◌∷◌}
use i_pulse.Events.Category.{performance}
use i_pulse.Events.Severity.{notice, warning}
use i_pulse.Events.Definition.{Definition, event_definition}
use i_pulse.Events.Catalog.CodesLow.{
  download_degradation, upload_degradation, download_below_isp_expected, upload_below_isp_expected,
  performance_recovered, throughput_degradation, latency_spike, sustained_high_latency,
  jitter_degradation, latency_degradation, packet_loss_detected, packet_loss_cleared,
  local_bandwidth_saturation, dns_response_degradation, upstream_degradation,
  route_latency_degradation,
}

unfoldable pub performance_events : List Definition
performance_events =
    event_definition download_degradation "DOWNLOAD_DEGRADATION" warning performance
      "Measured download throughput is substantially below its baseline."
      "Download fell more than alerts.download_degradation_percent below the time-aware baseline, for the required persistence."
      ("BaselineDownload" ∷ "CurrentDownload" ∷ "Deviation" ∷ "Bucket" ∷ "Observations"
        ∷ "ProbableCause" ∷ [])
      "Compare with upload utilisation and latency; if the link is idle, contact the ISP."
    ∷ event_definition upload_degradation "UPLOAD_DEGRADATION" warning performance
        "Measured upload throughput is substantially below its baseline."
        "Upload fell more than alerts.upload_degradation_percent below the time-aware baseline."
        ("BaselineUpload" ∷ "CurrentUpload" ∷ "Deviation" ∷ "Bucket" ∷ "Observations"
          ∷ "ProbableCause" ∷ [])
        "Check for local upload saturation before escalating to the ISP."
    ∷ event_definition download_below_isp_expected "DOWNLOAD_BELOW_ISP_EXPECTATION" warning
        performance "Download throughput is below the configured advertised ISP speed."
        "Download < expected_download_mbps by more than alerts.isp_shortfall_percent."
        ("ExpectedDownload" ∷ "MeasuredDownload" ∷ "Shortfall" ∷ "TestServer" ∷ "SamplesBelow"
          ∷ "SampleWindow" ∷ [])
        "Collect several samples, then raise with the ISP citing the stored history."
    ∷ event_definition upload_below_isp_expected "UPLOAD_BELOW_ISP_EXPECTATION" warning performance
        "Upload throughput is below the configured advertised ISP speed."
        "Upload < expected_upload_mbps by more than alerts.isp_shortfall_percent."
        ("ExpectedUpload" ∷ "MeasuredUpload" ∷ "Shortfall" ∷ "TestServer" ∷ "SamplesBelow"
          ∷ "SampleWindow" ∷ [])
        "As above."
    ∷ event_definition performance_recovered "PERFORMANCE_RECOVERED" notice performance
        "A performance degradation cleared."
        "The offending metric returned within its recovery band for the required persistence."
        ("Metric" ∷ "Current" ∷ "Baseline" ∷ "DegradedFor" ∷ "OriginalEvent" ∷ []) "None."
    ∷ event_definition throughput_degradation "THROUGHPUT_DEGRADATION" warning performance
        "Lightweight throughput probes are consistently below baseline."
        "Consecutive lightweight probes below the baseline band between full tests."
        ("BaselineDownload" ∷ "CurrentDownload" ∷ "Deviation" ∷ "Consecutive" ∷ [])
        "Wait for the next full speed test to confirm."
    ∷ event_definition latency_spike "LATENCY_SPIKE" notice performance
        "A short-lived latency increase was observed."
        "A single latency sample exceeded the baseline deviation threshold."
        ("BaselineLatency" ∷ "CurrentLatency" ∷ "Deviation" ∷ "Target" ∷ [])
        "None unless it becomes sustained."
    ∷ event_definition sustained_high_latency "SUSTAINED_HIGH_LATENCY" warning performance
        "Latency has stayed above baseline for an extended period."
        "Latency above threshold for alerts.sustained_latency_seconds."
        ("BaselineLatency" ∷ "CurrentLatency" ∷ "Deviation" ∷ "Duration" ∷ "PacketLoss"
          ∷ "ProbableCause" ∷ [])
        "Check local saturation, Wi-Fi quality, then the ISP."
    ∷ event_definition jitter_degradation "JITTER_DEGRADATION" warning performance
        "Latency variation increased significantly."
        "Jitter exceeded its baseline by alerts.jitter_degradation_percent."
        ("BaselineJitter" ∷ "CurrentJitter" ∷ "Deviation" ∷ "PacketLoss" ∷ "Target" ∷ [])
        "Jitter harms real-time traffic; check Wi-Fi and local congestion."
    ∷ event_definition latency_degradation "LATENCY_DEGRADATION" warning performance
        "Latency degraded relative to the established baseline."
        "Latency exceeded baseline by alerts.latency_degradation_percent with the required persistence."
        ("BaselineLatency" ∷ "CurrentLatency" ∷ "Deviation" ∷ "PacketLoss" ∷ "UploadUtilization"
          ∷ "DownloadUtilization" ∷ "ProbableCause" ∷ [])
        "Use the ProbableCause field; saturation is the most common cause."
    ∷ event_definition packet_loss_detected "PACKET_LOSS_DETECTED" warning performance
        "Packet loss exceeded the configured threshold."
        "Measured loss above alerts.packet_loss_percent over the probe window."
        ("PacketLoss" ∷ "BaselineLoss" ∷ "Sent" ∷ "Received" ∷ "Target" ∷ "Latency" ∷ [])
        "Sustained loss on the first external hop points at the access link."
    ∷ event_definition packet_loss_cleared "PACKET_LOSS_CLEARED" notice performance
        "Packet loss returned to normal."
        "Loss below the recovery threshold for the required persistence."
        ("PacketLoss" ∷ "Duration" ∷ "Target" ∷ []) "None."
    ∷ event_definition local_bandwidth_saturation "LOCAL_BANDWIDTH_SATURATION" warning performance
        "Local link saturation is degrading Internet quality."
        "Correlation rule: bandwidth spike plus latency rise plus loss rise or throughput drop."
        ("Direction" ∷ "Utilization" ∷ "BaselineLatency" ∷ "CurrentLatency" ∷ "PacketLoss"
          ∷ "TopProcess" ∷ "Evidence" ∷ "ProbableCause" ∷ [])
        "Identify the named process or device consuming the link."
    ∷ event_definition dns_response_degradation "DNS_RESPONSE_DEGRADATION" warning performance
        "DNS resolution is measurably slower than baseline."
        "DNS response time above baseline by the configured percentage."
        ("BaselineDNS" ∷ "CurrentDNS" ∷ "Deviation" ∷ "Server" ∷ "Name" ∷ [])
        "Try an alternate resolver; slow DNS is often mistaken for slow Internet."
    ∷ event_definition upstream_degradation "UPSTREAM_PERFORMANCE_DEGRADATION" warning performance
        "Throughput is degraded and the local network is not the cause."
        "Correlation rule: throughput below baseline or plan, with no local saturation and no wireless degradation."
        ("CurrentDownload" ∷ "CurrentUpload" ∷ "Deviation" ∷ "Evidence" ∷ "ProbableCause" ∷ [])
        "This is the evidence an ISP ticket needs: the local link was idle and healthy while throughput was low."
    ∷ event_definition route_latency_degradation "ROUTE_LATENCY_DEGRADATION" notice performance
        "Per-hop latency on a monitored path increased."
        "Hop RTT increase beyond threshold on a stable path."
        ("Destination" ∷ "Hop" ∷ "HopAddress" ∷ "BaselineRTT" ∷ "CurrentRTT" ∷ "Deviation" ∷ [])
        "Useful evidence for an ISP ticket; the first degraded hop localises the problem."
    ∷ []
