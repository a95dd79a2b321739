-- ===== src/Gateway/Metrics/Sums.antt =====
-- The breakdowns of a counter add up to it, whatever the gateway serves.
use datum_connect.Base.{
  ℕ, ◌+◌, ◌%◌, ◌≡◌, Bool, List, arith, if◌then◌else◌, option_eq, nat_eq, text_eq, u64_mod,
}
use datum_connect.Gateway.{GatewayMetrics, default_metrics}
use datum_connect.Gateway.Metrics.{
  is_server_error, inc_denied_missing_header_name, inc_denied_invalid_endpoint,
  inc_denied_invalid_target_port, inc_status_code, inc_5xx_failure_by_peer_conn_state,
}

-- Two counts agree up to the wrap of the counters.
abbrev pub Agree : ℕ → ℕ → Type 0
Agree a b = a % u64_mod ≡ b % u64_mod

pub record IsConsistent (m : GatewayMetrics) : Type 0 where
  pub tunnel_by_source : Agree (m.requests_tunnel_tcp + m.requests_tunnel_uds) m.requests_tunnel
  pub tunnel_by_reuse : Agree (m.tunnel_reuse_with + m.tunnel_reuse_without) m.requests_tunnel
  pub origin_by_source : Agree (m.requests_origin_tcp + m.requests_origin_uds) m.requests_origin
  pub origin_by_reuse : Agree (m.origin_reuse_with + m.origin_reuse_without) m.requests_origin
  pub by_status :
      Agree
        (m.responses_500 + m.responses_502 + m.responses_503 + m.responses_504
          + m.responses_other_5xx)
        m.responses_5xx
  pub by_peer : Agree (m.failures_5xx_with + m.failures_5xx_without) m.responses_5xx

pub default_metrics-IsConsistent : IsConsistent default_metrics
default_metrics-IsConsistent = omega arith

-- A response counts once by status and, for a server error, once by the state of the peer's
-- connection.
pub response-IsConsistent :
    (status : ℕ) (known : Bool) (m : GatewayMetrics)
    → IsConsistent m
    → IsConsistent (
        if is_server_error status
        then inc_5xx_failure_by_peer_conn_state known (inc_status_code status m)
        else inc_status_code status m)
unfolding inc_status_code inc_5xx_failure_by_peer_conn_state
response-IsConsistent status known m h = ground arith

-- The counters of the denials are no part of the sums.
pub missing_header-IsConsistent :
    (name : List ℕ) (m : GatewayMetrics)
    → IsConsistent m
    → IsConsistent (inc_denied_missing_header_name name m)
unfolding inc_denied_missing_header_name
missing_header-IsConsistent name m h = ground arith

pub invalid_endpoint-IsConsistent :
    (m : GatewayMetrics) → IsConsistent m → IsConsistent (inc_denied_invalid_endpoint m)
unfolding inc_denied_invalid_endpoint
invalid_endpoint-IsConsistent m h = ground arith

pub invalid_target_port-IsConsistent :
    (m : GatewayMetrics) → IsConsistent m → IsConsistent (inc_denied_invalid_target_port m)
unfolding inc_denied_invalid_target_port
invalid_target_port-IsConsistent m h = ground arith
