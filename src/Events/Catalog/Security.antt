-- ===== src/Events/Catalog/Security.antt =====
-- internal/events/catalog_defs.go: the security part of the catalog.
use i_pulse.Base.{List, [], ◌∷◌}
use i_pulse.Events.Category.{security}
use i_pulse.Events.Severity.{error, info, notice, warning}
use i_pulse.Events.Definition.{Definition, event_definition}
use i_pulse.Events.Catalog.CodesHigh.{
  new_external_destination, rare_destination_contact, unexpected_dest_port,
  rapid_destination_fanout, known_malicious_dest, threat_intelligence_match, malicious_domain_conn,
  threat_feed_imported, threat_feed_import_failed, internal_host_sweep, possible_port_scan,
  abnormal_lateral_conns, repeated_internal_failures, remote_admin_proto_sweep,
}

unfoldable pub security_events : List Definition
security_events =
    event_definition new_external_destination "NEW_EXTERNAL_DESTINATION" info security
      "A previously unseen external destination was contacted."
      "A remote address/port pair with no prior history was observed."
      ("Destination" ∷ "RemotePort" ∷ "Protocol" ∷ "Process" ∷ "PID" ∷ "ReverseDNS" ∷ "ASN"
        ∷ "Organization" ∷ "Country" ∷ [])
      "Informational. Most new destinations are benign."
    ∷ event_definition rare_destination_contact "RARE_DESTINATION_CONTACT" notice security
        "A destination contacted very rarely in the past was contacted again."
        "Destination frequency is below the rarity percentile over the history window."
        ("Destination" ∷ "Frequency" ∷ "FirstSeen" ∷ "LastSeen" ∷ "Process" ∷ "ASN" ∷ "Country"
          ∷ [])
        "Context only; combine with volume and threat-intel signals."
    ∷ event_definition unexpected_dest_port "UNEXPECTED_DESTINATION_PORT" notice security
        "An outbound connection used a port outside the normal profile."
        "Remote port not in the learned port profile and not in the configured expected set."
        ("Destination" ∷ "RemotePort" ∷ "Protocol" ∷ "Process" ∷ "PID" ∷ "PortProfile" ∷ [])
        "Verify the application legitimately uses this port."
    ∷ event_definition rapid_destination_fanout "RAPID_DESTINATION_FANOUT" warning security
        "Many distinct external destinations were contacted in a short window."
        "Distinct remote addresses within the fanout window exceeded the threshold."
        ("DistinctDestinations" ∷ "Window" ∷ "Process" ∷ "PID" ∷ "TopPorts" ∷ "Confidence" ∷ [])
        "Possible scanning, peer-to-peer, or a crawler. Verify the process."
    ∷ event_definition known_malicious_dest "KNOWN_MALICIOUS_DESTINATION" error security
        "A connection matched a high-confidence indicator in local threat intelligence."
        "Remote IP/CIDR matched an imported indicator whose confidence is High."
        ("RemoteIP" ∷ "RemotePort" ∷ "Protocol" ∷ "Process" ∷ "PID" ∷ "ExecutablePath" ∷ "User"
          ∷ "ThreatSource" ∷ "Indicator" ∷ "Confidence" ∷ "FeedUpdated" ∷ "BytesSent"
          ∷ "BytesReceived" ∷ [])
        "Investigate the process. iPulse does not block traffic; blocking is an operator decision."
    ∷ event_definition threat_intelligence_match "THREAT_INTELLIGENCE_MATCH" warning security
        "A connection matched local threat intelligence."
        "Remote IP, CIDR or domain matched an imported indicator."
        ("Process" ∷ "PID" ∷ "RemoteIP" ∷ "RemotePort" ∷ "ThreatSource" ∷ "Indicator"
          ∷ "IndicatorType" ∷ "Confidence" ∷ "FeedUpdated" ∷ [])
        "Confirm the indicator is still valid; feeds carry false positives."
    ∷ event_definition malicious_domain_conn "MALICIOUS_DOMAIN_CONNECTION" warning security
        "A resolved or reverse-resolved domain matched a domain blocklist."
        "Domain observed via DNS monitoring or reverse DNS matched an imported domain indicator."
        ("Domain" ∷ "RemoteIP" ∷ "Process" ∷ "PID" ∷ "ThreatSource" ∷ "Indicator" ∷ "Confidence"
          ∷ [])
        "As above."
    ∷ event_definition threat_feed_imported "THREAT_FEED_IMPORTED" info security
        "A threat-intelligence feed was imported." "Scheduled or manual feed import completed."
        ("Source" ∷ "Format" ∷ "Indicators" ∷ "Added" ∷ "Updated" ∷ "Removed" ∷ "Duration"
          ∷ "Confidence" ∷ [])
        "None."
    ∷ event_definition threat_feed_import_failed "THREAT_FEED_IMPORT_FAILED" warning security
        "A threat-intelligence feed could not be imported." "Fetch, parse or validation failure."
        ("Source" ∷ "Format" ∷ "Error" ∷ "LastSuccess" ∷ [])
        "Check the feed URL/path and format. Existing indicators are retained."
    ∷ event_definition internal_host_sweep "INTERNAL_HOST_SWEEP" warning security
        "Possible host-sweep behaviour toward the local network."
        "Connections to more distinct private hosts than the configured threshold within the window."
        ("DistinctHosts" ∷ "Window" ∷ "Process" ∷ "PID" ∷ "Ports" ∷ "Subnets" ∷ "FailedConnections"
          ∷ "Confidence" ∷ "Interpretation" ∷ [])
        "Possible lateral scanning behaviour. Verify whether the process is an approved scanner or management tool."
    ∷ event_definition possible_port_scan "POSSIBLE_PORT_SCAN" warning security
        "Possible port-scanning behaviour toward one or more hosts."
        "Connections to more distinct ports on a host than the configured threshold within the window, or sequential port progression."
        ("TargetHost" ∷ "DistinctPorts" ∷ "Window" ∷ "Sequential" ∷ "Process" ∷ "PID"
          ∷ "FailedConnections" ∷ "Confidence" ∷ "Interpretation" ∷ [])
        "Possible scanning behaviour, not confirmed compromise. Verify the process."
    ∷ event_definition abnormal_lateral_conns "ABNORMAL_LATERAL_CONNECTIONS" notice security
        "Internal connection behaviour is inconsistent with the learned baseline."
        "Internal connection count or distinct-peer count exceeded the baseline for this time bucket."
        ("DistinctHosts" ∷ "Connections" ∷ "BaselineHosts" ∷ "Deviation" ∷ "Bucket" ∷ "Process"
          ∷ "Confidence" ∷ "Interpretation" ∷ [])
        "Context signal; combine with sweep/scan events."
    ∷ event_definition repeated_internal_failures "REPEATED_INTERNAL_CONNECTION_FAILURES" notice
        security "Many failed connection attempts to internal hosts."
        "SYN_SENT or refused internal connections above the threshold within the window."
        ("FailedAttempts" ∷ "DistinctHosts" ∷ "Window" ∷ "Ports" ∷ "Process" ∷ "PID" ∷ "Confidence"
          ∷ "Interpretation" ∷ [])
        "Often a misconfigured client; can also indicate discovery activity."
    ∷ event_definition remote_admin_proto_sweep "REMOTE_ADMIN_PROTOCOL_SWEEP" warning security
        "Possible sweep of remote-administration ports across internal hosts."
        "Connections to SMB/RDP/SSH/WinRM/VNC ports on more distinct internal hosts than the threshold."
        ("Protocols" ∷ "DistinctHosts" ∷ "Ports" ∷ "Window" ∷ "Process" ∷ "PID"
          ∷ "FailedConnections" ∷ "Confidence" ∷ "Interpretation" ∷ [])
        "Possible lateral movement reconnaissance. Verify against approved management tooling."
    ∷ []
