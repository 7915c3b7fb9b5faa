-- ===== src/Events/Catalog/Availability.antt =====
-- internal/events/catalog_defs.go: the availability part of the catalog.
use i_pulse.Base.{List, [], ◌∷◌}
use i_pulse.Events.Category.{availability}
use i_pulse.Events.Severity.{critical, error, info, notice, warning}
use i_pulse.Events.Definition.{Definition, event_definition}
use i_pulse.Events.Catalog.CodesLow.{
  internet_connectivity_lost, outage_started, outage_ended, isp_outage, dns_failure,
  gateway_failure, local_interface_failure, partial_connectivity, routing_failure, wifi_degradation,
  diagnostics_completed, availability_report,
}

unfoldable pub availability_events : List Definition
availability_events =
    event_definition internet_connectivity_lost "INTERNET_CONNECTIVITY_LOST" error availability
      "Internet connectivity is unavailable."
      "Health checks failed and layered diagnostics confirmed loss of Internet reachability."
      ("GatewayReachable" ∷ "DNSReachable" ∷ "ExternalIPReachable" ∷ "HTTPSReachable"
        ∷ "InterfaceUp" ∷ "ProbableCause" ∷ [])
      "Follow the ProbableCause classification."
    ∷ event_definition outage_started "OUTAGE_STARTED" error availability
        "An outage record was opened." "Connectivity loss confirmed by diagnostics."
        ("Classification" ∷ "ProbableCause" ∷ "Evidence" ∷ "Interface" ∷ "Gateway" ∷ [])
        "See the outage view on the dashboard."
    ∷ event_definition outage_ended "OUTAGE_ENDED" notice availability
        "An outage record was closed." "Connectivity was restored."
        ("Classification" ∷ "ProbableCause" ∷ "Duration" ∷ "Start" ∷ "End" ∷ []) "None."
    ∷ event_definition isp_outage "ISP_OUTAGE" error availability
        "The failure is upstream of this network."
        "Gateway reachable and DNS working, but multiple independent Internet endpoints in different networks are unreachable."
        ("GatewayReachable" ∷ "DNSReachable" ∷ "EndpointsTested" ∷ "EndpointsReachable" ∷ "Evidence"
          ∷ [])
        "Report to the ISP; local remediation will not help."
    ∷ event_definition dns_failure "DNS_FAILURE" error availability
        "Name resolution is failing while the network path works."
        "Gateway reachable and external IP literals reachable, but DNS queries fail."
        ("ServersTested" ∷ "ServersFailed" ∷ "NamesTested" ∷ "ExternalIPReachable" ∷ "Evidence"
          ∷ [])
        "Switch resolvers or restart the local resolver service."
    ∷ event_definition gateway_failure "GATEWAY_FAILURE" error availability
        "The default gateway is unreachable."
        "Interface is up with a valid address, but the gateway does not respond."
        ("Gateway" ∷ "Interface" ∷ "InterfaceUp" ∷ "LocalIP" ∷ "Method" ∷ "Evidence" ∷ [])
        "Check the router/AP and the local link."
    ∷ event_definition local_interface_failure "LOCAL_INTERFACE_FAILURE" critical availability
        "No usable network interface."
        "No interface is up with a routable address, or the default route is missing."
        ("Interfaces" ∷ "InterfaceUp" ∷ "LocalIP" ∷ "DefaultRoute" ∷ "Evidence" ∷ [])
        "Check cabling, Wi-Fi association, driver and DHCP."
    ∷ event_definition partial_connectivity "PARTIAL_CONNECTIVITY" warning availability
        "Some Internet destinations are reachable and others are not."
        "Mixed reachability results across independent endpoints."
        ("EndpointsTested" ∷ "EndpointsReachable" ∷ "Unreachable" ∷ "Evidence" ∷ "ProbableCause"
          ∷ [])
        "Often upstream routing or per-protocol filtering; check the unreachable list."
    ∷ event_definition routing_failure "ROUTING_FAILURE" error availability
        "Traffic is not being routed off the local network."
        "Gateway reachable but no external destination reachable at IP level, or the default route is invalid."
        ("DefaultRoute" ∷ "Gateway" ∷ "Interface" ∷ "Evidence" ∷ "VPNActive" ∷ [])
        "Inspect the routing table and any VPN client."
    ∷ event_definition wifi_degradation "WIFI_DEGRADATION" warning availability
        "Wi-Fi quality is degrading connectivity."
        "Weak RSSI or reduced link rate correlated with loss or latency on the wireless interface."
        ("SSID" ∷ "Signal" ∷ "SignalPercent" ∷ "LinkSpeed" ∷ "Frequency" ∷ "Channel" ∷ "PacketLoss"
          ∷ "GatewayRTT" ∷ "ProbableCause" ∷ [])
        "Move closer to the AP, change channel, or use a wired link before blaming the ISP."
    ∷ event_definition diagnostics_completed "DIAGNOSTICS_COMPLETED" info availability
        "A diagnostic ladder run finished."
        "Automatic escalation after a failed health check, or a manual diagnostics request."
        ("Classification" ∷ "ProbableCause" ∷ "Duration" ∷ "Trigger" ∷ "Evidence" ∷ []) "None."
    ∷ event_definition availability_report "AVAILABILITY_REPORT" info availability
        "Periodic availability summary." "The availability report interval elapsed."
        ("Window" ∷ "AvailabilityPercent" ∷ "Outages" ∷ "TotalDowntime" ∷ "LongestOutage" ∷ "MTBF"
          ∷ [])
        "None."
    ∷ []
