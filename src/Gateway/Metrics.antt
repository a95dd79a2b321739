-- ===== src/Gateway/Metrics.antt =====
-- The counting functions of `GatewayMetrics`, and the sums that they keep.
pub mod Sums
pub mod Render
pub mod Samples
use datum_connect.Base.{
  ℕ, zero, suc, ◌+◌, ◌-◌, ◌*◌, ◌/◌, ◌%◌, ◌^◌, ◌≤◌, ◌<◌, min, max, String, ◌≡◌, refl, sym, ap, subst,
  ◌∙◌, ◌≢◌, ◌↔◌, ◌⊎◌, inl, inr, Bool, true, false, not, ◌&&◌, ◌||◌, Option, none, some, List, [],
  ◌∷◌, ◌++◌, map, arith, if◌then◌else◌, Eq, ◌==◌, ==_refl, eq_of_==, option_eq, nat_eq, text_eq,
  Bool-cases, ltb, leb, u16_max, u32_max, u64_mod, ltb→lt, lt→ltb, leb→le, le→leb, tests, length,
  any, all, find, keep, All, Option-cases, length-append, find-test, find-eq-none, Result, ok, err,
  ◌>>=◌, ◌>>◌, context, std_context, to_option, is_ok, Result-cases,
}
use datum_connect.Text.{Text, codes}
use datum_connect.Gateway.{GatewayMetrics, bump}

unfoldable pub inc_tunnel_requests : GatewayMetrics → GatewayMetrics
inc_tunnel_requests m = record m { requests_tunnel = bump m.requests_tunnel }

unfoldable pub inc_origin_requests : GatewayMetrics → GatewayMetrics
inc_origin_requests m = record m { requests_origin = bump m.requests_origin }

unfoldable pub inc_tunnel_reuse_attempt : Bool → GatewayMetrics → GatewayMetrics
inc_tunnel_reuse_attempt has_existing_peer_conn m =
    if has_existing_peer_conn
    then record m { tunnel_reuse_with = bump m.tunnel_reuse_with }
    else record m { tunnel_reuse_without = bump m.tunnel_reuse_without }

unfoldable pub inc_origin_reuse_attempt : Bool → GatewayMetrics → GatewayMetrics
inc_origin_reuse_attempt has_existing_peer_conn m =
    if has_existing_peer_conn
    then record m { origin_reuse_with = bump m.origin_reuse_with }
    else record m { origin_reuse_without = bump m.origin_reuse_without }

unfoldable pub inc_tunnel_tcp_requests : GatewayMetrics → GatewayMetrics
inc_tunnel_tcp_requests m = record m { requests_tunnel_tcp = bump m.requests_tunnel_tcp }

unfoldable pub inc_tunnel_uds_requests : GatewayMetrics → GatewayMetrics
inc_tunnel_uds_requests m = record m { requests_tunnel_uds = bump m.requests_tunnel_uds }

unfoldable pub inc_origin_tcp_requests : GatewayMetrics → GatewayMetrics
inc_origin_tcp_requests m = record m { requests_origin_tcp = bump m.requests_origin_tcp }

unfoldable pub inc_origin_uds_requests : GatewayMetrics → GatewayMetrics
inc_origin_uds_requests m = record m { requests_origin_uds = bump m.requests_origin_uds }

unfoldable pub inc_tcp_requests : GatewayMetrics → GatewayMetrics
inc_tcp_requests m = record m { requests_tcp = bump m.requests_tcp }

unfoldable pub inc_uds_requests : GatewayMetrics → GatewayMetrics
inc_uds_requests m = record m { requests_uds = bump m.requests_uds }

unfoldable pub inc_denied_missing_header : GatewayMetrics → GatewayMetrics
inc_denied_missing_header m = record m { denied_missing_header = bump m.denied_missing_header }

abbrev pub header_node_id : Text
header_node_id = codes "x-iroh-endpoint-id"

unfoldable pub inc_denied_missing_header_name : Text → GatewayMetrics → GatewayMetrics
unfolding inc_denied_missing_header
inc_denied_missing_header_name name m =
    let m' = inc_denied_missing_header m in
    if name == header_node_id
    then record m' { denied_missing_header_node_id = bump m'.denied_missing_header_node_id }
    else m'

unfoldable pub inc_denied_invalid_endpoint : GatewayMetrics → GatewayMetrics
inc_denied_invalid_endpoint m = record m {
  denied_invalid_endpoint = bump m.denied_invalid_endpoint;
}

unfoldable pub inc_denied_invalid_target_port : GatewayMetrics → GatewayMetrics
inc_denied_invalid_target_port m = record m {
  denied_invalid_target_port = bump m.denied_invalid_target_port;
}

-- `status.is_client_error()` and `status.is_server_error()`
abbrev pub is_client_error : ℕ → Bool
is_client_error status = leb 400 status && leb status 499

abbrev pub is_server_error : ℕ → Bool
is_server_error status = leb 500 status && leb status 599

unfoldable pub inc_exact_5xx : ℕ → GatewayMetrics → GatewayMetrics
inc_exact_5xx status m =
    if status == 500
    then record m { responses_500 = bump m.responses_500 }
    else if status == 502
    then record m { responses_502 = bump m.responses_502 }
    else if status == 503
    then record m { responses_503 = bump m.responses_503 }
    else if status == 504
    then record m { responses_504 = bump m.responses_504 }
    else record m { responses_other_5xx = bump m.responses_other_5xx }

unfoldable pub inc_status_code : ℕ → GatewayMetrics → GatewayMetrics
unfolding inc_exact_5xx
inc_status_code status m =
    if is_client_error status
    then record m { responses_4xx = bump m.responses_4xx }
    else if is_server_error status
    then inc_exact_5xx status (record m { responses_5xx = bump m.responses_5xx })
    else m

unfoldable pub inc_5xx_failure_by_peer_conn_state : Bool → GatewayMetrics → GatewayMetrics
inc_5xx_failure_by_peer_conn_state has_existing_peer_conn m =
    if has_existing_peer_conn
    then record m { failures_5xx_with = bump m.failures_5xx_with }
    else record m { failures_5xx_without = bump m.failures_5xx_without }
