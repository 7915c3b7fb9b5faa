-- ===== src/Events/Catalog/CodesHigh.antt =====
-- internal/events/catalog.go: the event codes from 5000. They are stable: a published code keeps
-- its meaning.
use i_pulse.Base.{ℕ}

abbrev pub new_external_destination : ℕ
new_external_destination = 5001

abbrev pub rare_destination_contact : ℕ
rare_destination_contact = 5002

abbrev pub unexpected_dest_port : ℕ
unexpected_dest_port = 5003

abbrev pub rapid_destination_fanout : ℕ
rapid_destination_fanout = 5004

abbrev pub known_malicious_dest : ℕ
known_malicious_dest = 5101

abbrev pub threat_intelligence_match : ℕ
threat_intelligence_match = 5102

abbrev pub malicious_domain_conn : ℕ
malicious_domain_conn = 5103

abbrev pub threat_feed_imported : ℕ
threat_feed_imported = 5104

abbrev pub threat_feed_import_failed : ℕ
threat_feed_import_failed = 5105

abbrev pub internal_host_sweep : ℕ
internal_host_sweep = 5201

abbrev pub possible_port_scan : ℕ
possible_port_scan = 5202

abbrev pub abnormal_lateral_conns : ℕ
abnormal_lateral_conns = 5203

abbrev pub repeated_internal_failures : ℕ
repeated_internal_failures = 5204

abbrev pub remote_admin_proto_sweep : ℕ
remote_admin_proto_sweep = 5205

abbrev pub dns_resolution_ok : ℕ
dns_resolution_ok = 6001

abbrev pub dns_resolution_failed : ℕ
dns_resolution_failed = 6002

abbrev pub dns_server_changed : ℕ
dns_server_changed = 6003

abbrev pub dns_slow_response : ℕ
dns_slow_response = 6004

abbrev pub dns_partial_failure : ℕ
dns_partial_failure = 6005

abbrev pub public_ip_changed : ℕ
public_ip_changed = 6101

abbrev pub public_ip_unavailable : ℕ
public_ip_unavailable = 6102

abbrev pub ispasn_changed : ℕ
ispasn_changed = 6103

abbrev pub vpn_state_changed : ℕ
vpn_state_changed = 6104

abbrev pub possible_cgnat : ℕ
possible_cgnat = 6105

abbrev pub vpn_routing_change : ℕ
vpn_routing_change = 6106

abbrev pub route_changed : ℕ
route_changed = 6201

abbrev pub default_gateway_change : ℕ
default_gateway_change = 6202

abbrev pub hop_count_changed : ℕ
hop_count_changed = 6203

abbrev pub traceroute_completed : ℕ
traceroute_completed = 6204

abbrev pub traceroute_unavail : ℕ
traceroute_unavail = 6205

abbrev pub interface_up : ℕ
interface_up = 7001

abbrev pub interface_down : ℕ
interface_down = 7002

abbrev pub interface_changed : ℕ
interface_changed = 7003

abbrev pub ip_address_changed : ℕ
ip_address_changed = 7004

abbrev pub link_speed_changed : ℕ
link_speed_changed = 7005

abbrev pub interface_errors_rising : ℕ
interface_errors_rising = 7006

abbrev pub wifi_connected : ℕ
wifi_connected = 7101

abbrev pub wifi_disconnected : ℕ
wifi_disconnected = 7102

abbrev pub wifi_signal_degraded : ℕ
wifi_signal_degraded = 7103

abbrev pub wifi_ssid_changed : ℕ
wifi_ssid_changed = 7104

abbrev pub wifi_link_speed_degraded : ℕ
wifi_link_speed_degraded = 7105

abbrev pub wifi_monitoring_unavail : ℕ
wifi_monitoring_unavail = 7106

abbrev pub agent_started : ℕ
agent_started = 8001

abbrev pub agent_stopped : ℕ
agent_stopped = 8002

abbrev pub config_loaded : ℕ
config_loaded = 8003

abbrev pub config_reloaded : ℕ
config_reloaded = 8004

abbrev pub config_invalid : ℕ
config_invalid = 8005

abbrev pub service_installed : ℕ
service_installed = 8006

abbrev pub service_removed : ℕ
service_removed = 8007

abbrev pub database_opened : ℕ
database_opened = 8008

abbrev pub retention_completed : ℕ
retention_completed = 8009

abbrev pub log_rotated : ℕ
log_rotated = 8010

abbrev pub api_started : ℕ
api_started = 8011

abbrev pub api_stopped : ℕ
api_stopped = 8012

abbrev pub scheduler_task_skip : ℕ
scheduler_task_skip = 8013

abbrev pub privilege_limited : ℕ
privilege_limited = 8014

abbrev pub baseline_established : ℕ
baseline_established = 8015

abbrev pub manual_test_requested : ℕ
manual_test_requested = 8016

abbrev pub internal_error : ℕ
internal_error = 9001

abbrev pub database_error : ℕ
database_error = 9002

abbrev pub collector_error : ℕ
collector_error = 9003

abbrev pub probe_error : ℕ
probe_error = 9004

abbrev pub panic_recovered : ℕ
panic_recovered = 9005

abbrev pub log_sink_error : ℕ
log_sink_error = 9006

abbrev pub task_timeout : ℕ
task_timeout = 9007

abbrev pub config_watch_err : ℕ
config_watch_err = 9008
