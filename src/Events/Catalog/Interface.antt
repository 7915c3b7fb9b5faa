-- ===== src/Events/Catalog/Interface.antt =====
-- internal/events/catalog_defs.go: the interface part of the catalog.
use i_pulse.Base.{List, [], ◌∷◌}
use i_pulse.Events.Category.{interface}
use i_pulse.Events.Severity.{debug, error, info, notice, warning}
use i_pulse.Events.Definition.{Definition, event_definition}
use i_pulse.Events.Catalog.CodesHigh.{
  interface_up, interface_down, interface_changed, ip_address_changed, link_speed_changed,
  interface_errors_rising, wifi_connected, wifi_disconnected, wifi_signal_degraded,
  wifi_ssid_changed, wifi_link_speed_degraded, wifi_monitoring_unavail,
}

unfoldable pub interface_events : List Definition
interface_events =
    event_definition interface_up "INTERFACE_UP" notice interface "A network interface came up."
      "Interface operational state transitioned to up."
      ("Interface" ∷ "Type" ∷ "MAC" ∷ "Addresses" ∷ "MTU" ∷ "LinkSpeed" ∷ []) "None."
    ∷ event_definition interface_down "INTERFACE_DOWN" error interface
        "A network interface went down."
        "Interface operational state transitioned to down or lost carrier."
        ("Interface" ∷ "Type" ∷ "PreviousAddresses" ∷ "WasDefaultRoute" ∷ [])
        "If this was the default-route interface, expect an outage record."
    ∷ event_definition interface_changed "INTERFACE_CHANGED" notice interface
        "The interface carrying the default route changed."
        "The default-route interface differs from the previous observation."
        ("Previous" ∷ "Current" ∷ "PreviousType" ∷ "CurrentType" ∷ "VPNActive" ∷ [])
        "Expected on Wi-Fi/Ethernet handover or VPN connect."
    ∷ event_definition ip_address_changed "IP_ADDRESS_CHANGED" notice interface
        "A local IP address changed."
        "Address set on an interface differs from the previous observation."
        ("Interface" ∷ "Previous" ∷ "Current" ∷ "Family" ∷ "Scope" ∷ [])
        "Expected after DHCP renewal."
    ∷ event_definition link_speed_changed "LINK_SPEED_CHANGED" info interface
        "Negotiated link speed changed."
        "Reported interface speed differs from the previous observation."
        ("Interface" ∷ "PreviousSpeed" ∷ "CurrentSpeed" ∷ "Duplex" ∷ [])
        "A drop to a lower rate can indicate a cabling or driver problem."
    ∷ event_definition interface_errors_rising "INTERFACE_ERRORS_RISING" warning interface
        "Interface error or drop counters are increasing."
        "Delta of errors/drops per sample above the configured threshold."
        ("Interface" ∷ "RxErrors" ∷ "TxErrors" ∷ "RxDropped" ∷ "TxDropped" ∷ "Window" ∷ "ErrorRate"
          ∷ [])
        "Usually physical: cable, port, driver or radio interference."
    ∷ event_definition wifi_connected "WIFI_CONNECTED" info interface
        "A wireless interface associated with a network." "Wi-Fi association observed."
        ("Interface" ∷ "SSID" ∷ "BSSID" ∷ "Signal" ∷ "SignalPercent" ∷ "LinkSpeed" ∷ "Frequency"
          ∷ "Channel" ∷ "Band" ∷ [])
        "None. No credentials are collected."
    ∷ event_definition wifi_disconnected "WIFI_DISCONNECTED" warning interface
        "A wireless interface lost its association." "Wi-Fi association lost."
        ("Interface" ∷ "PreviousSSID" ∷ "LastSignal" ∷ "Duration" ∷ []) "None."
    ∷ event_definition wifi_signal_degraded "WIFI_SIGNAL_DEGRADED" warning interface
        "Wireless signal strength dropped below the configured threshold."
        "RSSI below wifi.weak_signal_dbm for the required persistence."
        ("Interface" ∷ "SSID" ∷ "Signal" ∷ "SignalPercent" ∷ "BaselineSignal" ∷ "Threshold"
          ∷ "LinkSpeed" ∷ "PacketLoss" ∷ [])
        "Weak signal explains latency and loss that would otherwise look like an ISP fault."
    ∷ event_definition wifi_ssid_changed "WIFI_SSID_CHANGED" notice interface
        "The wireless network changed."
        "Associated SSID or BSSID differs from the previous observation."
        ("Interface" ∷ "PreviousSSID" ∷ "CurrentSSID" ∷ "PreviousBSSID" ∷ "CurrentBSSID" ∷ "Signal"
          ∷ [])
        "Roaming between APs is normal."
    ∷ event_definition wifi_link_speed_degraded "WIFI_LINK_SPEED_DEGRADED" warning interface
        "Wireless link rate dropped well below its baseline."
        "Link rate below the baseline band for the required persistence."
        ("Interface" ∷ "SSID" ∷ "LinkSpeed" ∷ "BaselineLinkSpeed" ∷ "Deviation" ∷ "Signal"
          ∷ "Channel" ∷ [])
        "Interference or distance; consider changing channel or band."
    ∷ event_definition wifi_monitoring_unavail "WIFI_MONITORING_UNAVAILABLE" debug interface
        "Wireless telemetry is unavailable on this host."
        "No wireless interface, or the platform API is unavailable/not permitted."
        ("Reason" ∷ "Platform" ∷ []) "Only relevant if this host does use Wi-Fi."
    ∷ []
