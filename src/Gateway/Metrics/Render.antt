-- ===== src/Gateway/Metrics/Render.antt =====
-- `GatewayMetrics::render` of lib/src/gateway/metrics.rs: the text that Prometheus reads.
use datum_connect.Base.{
  ℕ, ◌+◌, ◌-◌, ◌%◌, String, List, [], ◌∷◌, ◌++◌, option_eq, nat_eq, text_eq, u64_mod,
}
use datum_connect.Text.{Text, codes, print_uint}
use datum_connect.Gateway.{GatewayMetrics}

-- The counters of iroh's endpoint that `render` reads.
pub record EndpointMetrics : Type 0 where
  pub num_direct_conns_added : ℕ
  pub num_direct_conns_removed : ℕ
  pub num_relay_conns_added : ℕ
  pub num_relay_conns_removed : ℕ
  pub send_relay_error : ℕ
  pub relay_home_change : ℕ
  pub connection_handshake_success : ℕ
  pub endpoints_contacted : ℕ
  pub endpoints_contacted_directly : ℕ
  pub path_ping_failures : ℕ
  pub path_marked_outdated : ℕ
  pub path_failure_resets : ℕ
  pub recv_data_ipv4 : ℕ
  pub recv_data_ipv6 : ℕ
  pub recv_data_relay : ℕ
  pub send_data : ℕ

-- What `format!` strings together: a literal, or an argument at its `{}`.
pub data Item : Type 0 where
  lit : String → Item
  arg : ℕ → Item

unfoldable pub format : List Item → Text
format [] = []
format (lit s ∷ is) = codes s ++ format is
format (arg n ∷ is) = print_uint n ++ format is

-- `saturating_sub` is `-` on the natural numbers.
abbrev pub direct_current : EndpointMetrics → ℕ
direct_current e = e.num_direct_conns_added - e.num_direct_conns_removed

abbrev pub relay_current : EndpointMetrics → ℕ
relay_current e = e.num_relay_conns_added - e.num_relay_conns_removed

-- The sum of u64, which wraps in a release build.
abbrev pub recv_total : EndpointMetrics → ℕ
recv_total e = (e.recv_data_ipv4 + e.recv_data_ipv6 + e.recv_data_relay) % u64_mod

-- The gateway's own counters.
unfoldable pub gateway_items : GatewayMetrics → List Item → List Item
gateway_items m rest =
    lit "# HELP iroh_gateway_requests_total Gateway request count by proxy request kind.\n"
    ∷ lit "# TYPE iroh_gateway_requests_total counter\n"
    ∷ lit "iroh_gateway_requests_total{kind=\"tunnel\"} "
    ∷ arg m.requests_tunnel
    ∷ lit "\n"
    ∷ lit "iroh_gateway_requests_total{kind=\"origin\"} "
    ∷ arg m.requests_origin
    ∷ lit "\n"
    ∷ lit "# HELP iroh_gateway_requests_by_source_total Gateway request count by ingress source.\n"
    ∷ lit "# TYPE iroh_gateway_requests_by_source_total counter\n"
    ∷ lit "iroh_gateway_requests_by_source_total{source=\"tcp\"} "
    ∷ arg m.requests_tcp
    ∷ lit "\n"
    ∷ lit "iroh_gateway_requests_by_source_total{source=\"uds\"} "
    ∷ arg m.requests_uds
    ∷ lit "\n"
    ∷ lit
        "# HELP iroh_gateway_requests_by_source_and_kind_total Gateway request count by ingress source and request kind.\n"
    ∷ lit "# TYPE iroh_gateway_requests_by_source_and_kind_total counter\n"
    ∷ lit "iroh_gateway_requests_by_source_and_kind_total{source=\"tcp\",kind=\"tunnel\"} "
    ∷ arg m.requests_tunnel_tcp
    ∷ lit "\n"
    ∷ lit "iroh_gateway_requests_by_source_and_kind_total{source=\"uds\",kind=\"tunnel\"} "
    ∷ arg m.requests_tunnel_uds
    ∷ lit "\n"
    ∷ lit "iroh_gateway_requests_by_source_and_kind_total{source=\"tcp\",kind=\"origin\"} "
    ∷ arg m.requests_origin_tcp
    ∷ lit "\n"
    ∷ lit "iroh_gateway_requests_by_source_and_kind_total{source=\"uds\",kind=\"origin\"} "
    ∷ arg m.requests_origin_uds
    ∷ lit "\n"
    ∷ lit
        "# HELP iroh_gateway_upstream_reuse_attempts_total Gateway upstream attempt count by request kind and whether a peer connection already existed.\n"
    ∷ lit "# TYPE iroh_gateway_upstream_reuse_attempts_total counter\n"
    ∷ lit
        "iroh_gateway_upstream_reuse_attempts_total{kind=\"tunnel\",peer_conn_state=\"with_existing\"} "
    ∷ arg m.tunnel_reuse_with
    ∷ lit "\n"
    ∷ lit
        "iroh_gateway_upstream_reuse_attempts_total{kind=\"tunnel\",peer_conn_state=\"without_existing\"} "
    ∷ arg m.tunnel_reuse_without
    ∷ lit "\n"
    ∷ lit
        "iroh_gateway_upstream_reuse_attempts_total{kind=\"origin\",peer_conn_state=\"with_existing\"} "
    ∷ arg m.origin_reuse_with
    ∷ lit "\n"
    ∷ lit
        "iroh_gateway_upstream_reuse_attempts_total{kind=\"origin\",peer_conn_state=\"without_existing\"} "
    ∷ arg m.origin_reuse_without
    ∷ lit "\n"
    ∷ lit "# HELP iroh_gateway_denied_requests_total Gateway denied request count by reason.\n"
    ∷ lit "# TYPE iroh_gateway_denied_requests_total counter\n"
    ∷ lit "iroh_gateway_denied_requests_total{reason=\"missing_header\"} "
    ∷ arg m.denied_missing_header
    ∷ lit "\n"
    ∷ lit "iroh_gateway_denied_requests_total{reason=\"missing_header_node_id\"} "
    ∷ arg m.denied_missing_header_node_id
    ∷ lit "\n"
    ∷ lit "iroh_gateway_denied_requests_total{reason=\"invalid_endpoint_id\"} "
    ∷ arg m.denied_invalid_endpoint
    ∷ lit "\n"
    ∷ lit "iroh_gateway_denied_requests_total{reason=\"invalid_target_port\"} "
    ∷ arg m.denied_invalid_target_port
    ∷ lit "\n"
    ∷ lit
        "# HELP iroh_gateway_error_responses_total Gateway error response count grouped by status class.\n"
    ∷ lit "# TYPE iroh_gateway_error_responses_total counter\n"
    ∷ lit "iroh_gateway_error_responses_total{class=\"4xx\"} "
    ∷ arg m.responses_4xx
    ∷ lit "\n"
    ∷ lit "iroh_gateway_error_responses_total{class=\"5xx\"} "
    ∷ arg m.responses_5xx
    ∷ lit "\n"
    ∷ lit
        "# HELP iroh_gateway_error_responses_by_status_total Gateway 5xx response count grouped by exact status code.\n"
    ∷ lit "# TYPE iroh_gateway_error_responses_by_status_total counter\n"
    ∷ lit "iroh_gateway_error_responses_by_status_total{status=\"500\"} "
    ∷ arg m.responses_500
    ∷ lit "\n"
    ∷ lit "iroh_gateway_error_responses_by_status_total{status=\"502\"} "
    ∷ arg m.responses_502
    ∷ lit "\n"
    ∷ lit "iroh_gateway_error_responses_by_status_total{status=\"503\"} "
    ∷ arg m.responses_503
    ∷ lit "\n"
    ∷ lit "iroh_gateway_error_responses_by_status_total{status=\"504\"} "
    ∷ arg m.responses_504
    ∷ lit "\n"
    ∷ lit "iroh_gateway_error_responses_by_status_total{status=\"other_5xx\"} "
    ∷ arg m.responses_other_5xx
    ∷ lit "\n"
    ∷ lit
        "# HELP iroh_gateway_upstream_failures_total Gateway upstream 5xx failures grouped by whether a peer connection existed when the error was generated.\n"
    ∷ lit "# TYPE iroh_gateway_upstream_failures_total counter\n"
    ∷ lit "iroh_gateway_upstream_failures_total{class=\"5xx\",peer_conn_state=\"with_existing\"} "
    ∷ arg m.failures_5xx_with
    ∷ lit "\n"
    ∷ lit
        "iroh_gateway_upstream_failures_total{class=\"5xx\",peer_conn_state=\"without_existing\"} "
    ∷ arg m.failures_5xx_without
    ∷ lit "\n"
    ∷ rest

-- The counters of the endpoint.
unfoldable pub endpoint_items : EndpointMetrics → List Item
endpoint_items e =
    lit "# HELP iroh_gateway_iroh_recv_bytes_total Total iroh magicsock bytes received.\n"
    ∷ lit "# TYPE iroh_gateway_iroh_recv_bytes_total counter\n"
    ∷ lit "iroh_gateway_iroh_recv_bytes_total "
    ∷ arg (recv_total e)
    ∷ lit "\n"
    ∷ lit "# HELP iroh_gateway_iroh_send_bytes_total Total iroh magicsock bytes sent.\n"
    ∷ lit "# TYPE iroh_gateway_iroh_send_bytes_total counter\n"
    ∷ lit "iroh_gateway_iroh_send_bytes_total "
    ∷ arg e.send_data
    ∷ lit "\n\n"
    ∷ lit
        "# HELP iroh_gateway_quic_connections_opened_total QUIC peer connections opened by transport path.\n"
    ∷ lit "# TYPE iroh_gateway_quic_connections_opened_total counter\n"
    ∷ lit "iroh_gateway_quic_connections_opened_total{path=\"direct\"} "
    ∷ arg e.num_direct_conns_added
    ∷ lit "\n"
    ∷ lit "iroh_gateway_quic_connections_opened_total{path=\"relay\"} "
    ∷ arg e.num_relay_conns_added
    ∷ lit "\n"
    ∷ lit
        "# HELP iroh_gateway_quic_connections_closed_total QUIC peer connections closed by transport path.\n"
    ∷ lit "# TYPE iroh_gateway_quic_connections_closed_total counter\n"
    ∷ lit "iroh_gateway_quic_connections_closed_total{path=\"direct\"} "
    ∷ arg e.num_direct_conns_removed
    ∷ lit "\n"
    ∷ lit "iroh_gateway_quic_connections_closed_total{path=\"relay\"} "
    ∷ arg e.num_relay_conns_removed
    ∷ lit "\n"
    ∷ lit
        "# HELP iroh_gateway_quic_connections_current Current QUIC peer connections by transport path.\n"
    ∷ lit "# TYPE iroh_gateway_quic_connections_current gauge\n"
    ∷ lit "iroh_gateway_quic_connections_current{path=\"direct\"} "
    ∷ arg (direct_current e)
    ∷ lit "\n"
    ∷ lit "iroh_gateway_quic_connections_current{path=\"relay\"} "
    ∷ arg (relay_current e)
    ∷ lit "\n\n"
    ∷ lit
        "# HELP iroh_gateway_tunnel_connectivity_events_total Tunnel connectivity events from iroh magicsock state.\n"
    ∷ lit "# TYPE iroh_gateway_tunnel_connectivity_events_total counter\n"
    ∷ lit "iroh_gateway_tunnel_connectivity_events_total{event=\"relay_send_error\"} "
    ∷ arg e.send_relay_error
    ∷ lit "\n"
    ∷ lit "iroh_gateway_tunnel_connectivity_events_total{event=\"relay_home_change\"} "
    ∷ arg e.relay_home_change
    ∷ lit "\n"
    ∷ lit "iroh_gateway_tunnel_connectivity_events_total{event=\"connection_handshake_success\"} "
    ∷ arg e.connection_handshake_success
    ∷ lit "\n"
    ∷ lit "iroh_gateway_tunnel_connectivity_events_total{event=\"endpoints_contacted\"} "
    ∷ arg e.endpoints_contacted
    ∷ lit "\n"
    ∷ lit "iroh_gateway_tunnel_connectivity_events_total{event=\"endpoints_contacted_directly\"} "
    ∷ arg e.endpoints_contacted_directly
    ∷ lit "\n"
    ∷ lit "iroh_gateway_tunnel_connectivity_events_total{event=\"path_ping_failures\"} "
    ∷ arg e.path_ping_failures
    ∷ lit "\n"
    ∷ lit "iroh_gateway_tunnel_connectivity_events_total{event=\"path_marked_outdated\"} "
    ∷ arg e.path_marked_outdated
    ∷ lit "\n"
    ∷ lit "iroh_gateway_tunnel_connectivity_events_total{event=\"path_failure_resets\"} "
    ∷ arg e.path_failure_resets
    ∷ lit "\n\n"
    ∷ []

-- `render`, where `endpoint_openmetrics` is the registry's own print of the endpoint's metrics.
unfoldable pub render : EndpointMetrics → Text → GatewayMetrics → Text
unfolding gateway_items endpoint_items
render e endpoint_openmetrics m =
    format (gateway_items m (endpoint_items e)) ++ endpoint_openmetrics
