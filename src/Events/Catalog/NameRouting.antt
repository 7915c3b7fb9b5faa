-- ===== src/Events/Catalog/NameRouting.antt =====
-- internal/events/catalog_defs.go: the name routing part of the catalog.
use i_pulse.Base.{List, [], ◌∷◌}
use i_pulse.Events.Category.{name_routing}
use i_pulse.Events.Severity.{debug, info, notice, warning}
use i_pulse.Events.Definition.{Definition, event_definition}
use i_pulse.Events.Catalog.CodesHigh.{
  dns_resolution_ok, dns_resolution_failed, dns_server_changed, dns_slow_response,
  dns_partial_failure, public_ip_changed, public_ip_unavailable, ispasn_changed, vpn_state_changed,
  possible_cgnat, vpn_routing_change, route_changed, default_gateway_change, hop_count_changed,
  traceroute_completed, traceroute_unavail,
}

unfoldable pub name_routing_events : List Definition
name_routing_events =
    event_definition dns_resolution_ok "DNS_RESOLUTION_OK" debug name_routing
      "A DNS probe succeeded." "The DNS interval elapsed and resolution succeeded."
      ("Name" ∷ "Server" ∷ "ResponseTime" ∷ "Answers" ∷ "Protocol" ∷ []) "None."
    ∷ event_definition dns_resolution_failed "DNS_RESOLUTION_FAILED" warning name_routing
        "A DNS probe failed." "Resolution failed or timed out on all configured resolvers."
        ("Name" ∷ "Server" ∷ "Error" ∷ "ServersTested" ∷ "ServersFailed" ∷ "Timeout" ∷ [])
        "Check the resolver and whether the network path is up."
    ∷ event_definition dns_server_changed "DNS_SERVER_CHANGED" notice name_routing
        "The system's configured resolvers changed."
        "The resolver list differs from the previous observation."
        ("Previous" ∷ "Current" ∷ "Interface" ∷ "VPNActive" ∷ [])
        "Expected after DHCP renewal or VPN connect; unexpected changes are worth review."
    ∷ event_definition dns_slow_response "DNS_SLOW_RESPONSE" warning name_routing
        "DNS responses exceeded the configured latency threshold."
        "Response time above alerts.dns_slow_ms for the required persistence."
        ("Name" ∷ "Server" ∷ "ResponseTime" ∷ "Threshold" ∷ "BaselineDNS" ∷ [])
        "Try an alternate resolver."
    ∷ event_definition dns_partial_failure "DNS_PARTIAL_FAILURE" notice name_routing
        "Some resolvers answered and others did not."
        "Mixed per-resolver results in one probe cycle."
        ("ServersTested" ∷ "ServersFailed" ∷ "FailedServers" ∷ "WorkingServers" ∷ "Name" ∷ [])
        "Consider removing the failing resolver from the configuration."
    ∷ event_definition public_ip_changed "PUBLIC_IP_CHANGED" notice name_routing
        "The public IP address changed."
        "A public IP probe returned a different address than the stored one."
        ("Family" ∷ "PreviousIP" ∷ "NewIP" ∷ "Interface" ∷ "ASN" ∷ "Organization" ∷ "Country"
          ∷ "VPNActive" ∷ "Provider" ∷ "CGNAT" ∷ [])
        "Normal for dynamic addressing. Not treated as a security incident on its own."
    ∷ event_definition public_ip_unavailable "PUBLIC_IP_UNAVAILABLE" warning name_routing
        "The public IP could not be determined." "All configured public IP providers failed."
        ("Family" ∷ "ProvidersTested" ∷ "Errors" ∷ [])
        "Usually a symptom of an outage rather than a problem itself."
    ∷ event_definition ispasn_changed "ISP_ASN_CHANGED" notice name_routing
        "The autonomous system serving this connection changed."
        "ASN for the current public IP differs from the previous observation."
        ("PreviousASN" ∷ "NewASN" ∷ "PreviousOrg" ∷ "NewOrg" ∷ "PublicIP" ∷ "VPNActive" ∷ [])
        "Expected on VPN connect, ISP failover or a network change."
    ∷ event_definition vpn_state_changed "VPN_STATE_CHANGED" notice name_routing
        "A VPN or tunnel interface became active or inactive."
        "Tunnel interface appeared/disappeared, or the default route moved to a tunnel."
        ("VPNActive" ∷ "Interface" ∷ "InterfaceType" ∷ "DefaultRouteVia" ∷ "PublicIP"
          ∷ "PreviousPublicIP" ∷ "DNSServers" ∷ [])
        "Explains public IP, DNS and route changes that follow."
    ∷ event_definition possible_cgnat "POSSIBLE_CGNAT_DETECTED" info name_routing
        "The connection appears to be behind carrier-grade NAT."
        "The WAN-side address is in 100.64.0.0/10, or the observed public IP differs from every local address while no tunnel is active."
        ("PublicIP" ∷ "LocalWANAddress" ∷ "Evidence" ∷ [])
        "Inbound connections will not work; relevant when diagnosing port forwarding."
    ∷ event_definition vpn_routing_change "VPN_ROUTING_CHANGE" notice name_routing
        "A VPN or tunnel change moved the default route, the public address and the resolvers together."
        "Correlation rule: a tunnel or default-route change accompanied by a public IP, ASN or resolver change."
        ("PublicIP" ∷ "PreviousPublicIP" ∷ "Interface" ∷ "DefaultRouteVia" ∷ "ASN" ∷ "Evidence"
          ∷ "ProbableCause" ∷ [])
        "None. This groups what would otherwise be several separate notices into one explanation."
    ∷ event_definition route_changed "ROUTE_CHANGED" notice name_routing
        "A monitored path changed significantly."
        "Hop set for a monitored destination differs beyond the configured tolerance."
        ("Destination" ∷ "PreviousHops" ∷ "CurrentHops" ∷ "ChangedAt" ∷ "PreviousPath"
          ∷ "CurrentPath" ∷ "VPNActive" ∷ [])
        "Normal ISP re-routing is common; correlate with latency changes."
    ∷ event_definition default_gateway_change "DEFAULT_GATEWAY_CHANGED" notice name_routing
        "The default gateway changed." "The default route's next hop or interface changed."
        ("PreviousGateway" ∷ "NewGateway" ∷ "PreviousInterface" ∷ "NewInterface" ∷ "Metric"
          ∷ "VPNActive" ∷ [])
        "Expected on network change, failover or VPN connect."
    ∷ event_definition hop_count_changed "HOP_COUNT_CHANGED" info name_routing
        "The number of hops to a monitored destination changed."
        "Hop count differs from the previous measurement."
        ("Destination" ∷ "PreviousHopCount" ∷ "CurrentHopCount" ∷ "Delta" ∷ []) "None."
    ∷ event_definition traceroute_completed "TRACEROUTE_COMPLETED" debug name_routing
        "A path measurement completed."
        "The route monitor interval elapsed, or a manual traceroute was requested."
        ("Destination" ∷ "Hops" ∷ "Duration" ∷ "Path" ∷ "Method" ∷ []) "None."
    ∷ event_definition traceroute_unavail "TRACEROUTE_UNAVAILABLE" notice name_routing
        "Path measurement is unavailable on this host."
        "Raw/datagram ICMP sockets are not permitted for this process."
        ("Reason" ∷ "Platform" ∷ "Remedy" ∷ [])
        "Grant CAP_NET_RAW on Linux, or run elevated on Windows, to enable path measurement."
    ∷ []
