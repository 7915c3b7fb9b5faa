-- ===== src/Events/Catalog/CodesLow.antt =====
-- internal/events/catalog.go: the event codes below 5000. They are stable: a published code keeps
-- its meaning.
use i_pulse.Base.{ℕ}

abbrev pub speed_test_started : ℕ
speed_test_started = 1001

abbrev pub speed_test_completed : ℕ
speed_test_completed = 1002

abbrev pub speed_test_failed : ℕ
speed_test_failed = 1003

abbrev pub throughput_sample : ℕ
throughput_sample = 1004

abbrev pub connectivity_check_ok : ℕ
connectivity_check_ok = 1005

abbrev pub connectivity_check_failed : ℕ
connectivity_check_failed = 1006

abbrev pub internet_restored : ℕ
internet_restored = 1007

abbrev pub health_score_updated : ℕ
health_score_updated = 1008

abbrev pub health_score_degraded : ℕ
health_score_degraded = 1009

abbrev pub speed_endpoint_unavailable : ℕ
speed_endpoint_unavailable = 1010

abbrev pub speed_test_skipped_busy : ℕ
speed_test_skipped_busy = 1011

abbrev pub download_degradation : ℕ
download_degradation = 2001

abbrev pub upload_degradation : ℕ
upload_degradation = 2002

abbrev pub download_below_isp_expected : ℕ
download_below_isp_expected = 2003

abbrev pub upload_below_isp_expected : ℕ
upload_below_isp_expected = 2004

abbrev pub performance_recovered : ℕ
performance_recovered = 2005

abbrev pub throughput_degradation : ℕ
throughput_degradation = 2006

abbrev pub latency_spike : ℕ
latency_spike = 2101

abbrev pub sustained_high_latency : ℕ
sustained_high_latency = 2102

abbrev pub jitter_degradation : ℕ
jitter_degradation = 2103

abbrev pub latency_degradation : ℕ
latency_degradation = 2104

abbrev pub packet_loss_detected : ℕ
packet_loss_detected = 2105

abbrev pub packet_loss_cleared : ℕ
packet_loss_cleared = 2106

abbrev pub local_bandwidth_saturation : ℕ
local_bandwidth_saturation = 2107

abbrev pub dns_response_degradation : ℕ
dns_response_degradation = 2108

abbrev pub route_latency_degradation : ℕ
route_latency_degradation = 2109

abbrev pub upstream_degradation : ℕ
upstream_degradation = 2110

abbrev pub internet_connectivity_lost : ℕ
internet_connectivity_lost = 3001

abbrev pub outage_started : ℕ
outage_started = 3002

abbrev pub outage_ended : ℕ
outage_ended = 3003

abbrev pub isp_outage : ℕ
isp_outage = 3004

abbrev pub dns_failure : ℕ
dns_failure = 3005

abbrev pub gateway_failure : ℕ
gateway_failure = 3006

abbrev pub local_interface_failure : ℕ
local_interface_failure = 3007

abbrev pub partial_connectivity : ℕ
partial_connectivity = 3008

abbrev pub routing_failure : ℕ
routing_failure = 3009

abbrev pub wifi_degradation : ℕ
wifi_degradation = 3010

abbrev pub diagnostics_completed : ℕ
diagnostics_completed = 3011

abbrev pub availability_report : ℕ
availability_report = 3012

abbrev pub bandwidth_spike_download : ℕ
bandwidth_spike_download = 4001

abbrev pub bandwidth_spike_upload : ℕ
bandwidth_spike_upload = 4002

abbrev pub sustained_bandwidth_usage : ℕ
sustained_bandwidth_usage = 4003

abbrev pub unusual_outbound_traffic : ℕ
unusual_outbound_traffic = 4004

abbrev pub sustained_upload : ℕ
sustained_upload = 4005

abbrev pub large_outbound_transfer : ℕ
large_outbound_transfer = 4006

abbrev pub new_high_volume_dest : ℕ
new_high_volume_dest = 4007

abbrev pub unusual_overnight_traffic : ℕ
unusual_overnight_traffic = 4008

abbrev pub periodic_spike_pattern : ℕ
periodic_spike_pattern = 4009

abbrev pub traffic_baseline_ready : ℕ
traffic_baseline_ready = 4010

abbrev pub connection_count_anomaly : ℕ
connection_count_anomaly = 4011

abbrev pub app_upload_anomaly : ℕ
app_upload_anomaly = 4012
