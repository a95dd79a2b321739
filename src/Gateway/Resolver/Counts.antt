-- ===== src/Gateway/Resolver/Counts.antt =====
-- `handle_request` keeps the sums of the counters, also where it denies the request.
use datum_connect.Base.{
  ℕ, ◌≡◌, refl, inl, inr, Bool, List, [], ◌∷◌, arith, option_eq, nat_eq, text_eq, Result, ok, err,
  Result-cases,
}
use datum_connect.Text.{Text}
use datum_connect.Gateway.{GatewayMetrics, Magicsock, default_metrics, has_existing_peer_conn}
use datum_connect.Gateway.Metrics.{
  inc_tunnel_requests, inc_origin_requests, inc_tunnel_reuse_attempt, inc_origin_reuse_attempt,
  inc_tunnel_tcp_requests, inc_tunnel_uds_requests, inc_origin_tcp_requests,
  inc_origin_uds_requests, inc_tcp_requests, inc_uds_requests,
}
use datum_connect.Gateway.Metrics.Sums.{
  IsConsistent, default_metrics-IsConsistent, response-IsConsistent, missing_header-IsConsistent,
  invalid_endpoint-IsConsistent, invalid_target_port-IsConsistent,
}
use datum_connect.Gateway.Responder.{count_response}
use datum_connect.Gateway.Resolver.{
  SrcAddr, tcp, unix, HttpRequestKind, tunnel, origin, http1_absolute, HttpLibrary, count_source,
  count_tunnel_source, count_origin_source, header_value, endpoint_id_from_headers,
  target_from_headers, handle_tunnel, handle_origin, handle_request,
}

source-IsConsistent :
    (src : SrcAddr) (m : GatewayMetrics) → IsConsistent m → IsConsistent (count_source src m)
unfolding count_source inc_tcp_requests inc_uds_requests
source-IsConsistent tcp m h = ground arith
source-IsConsistent unix m h = ground arith

-- One tunnel: counted as such, by the state of the connection and by its source.
tunnel-IsConsistent :
    (src : SrcAddr) (known : Bool) (m : GatewayMetrics)
    → IsConsistent m
    → IsConsistent
        (count_tunnel_source src (inc_tunnel_reuse_attempt known (inc_tunnel_requests m)))
unfolding count_tunnel_source inc_tunnel_reuse_attempt inc_tunnel_requests inc_tunnel_tcp_requests
    inc_tunnel_uds_requests
tunnel-IsConsistent tcp known m h = ground arith
tunnel-IsConsistent unix known m h = ground arith

origin-IsConsistent :
    (src : SrcAddr) (known : Bool) (m : GatewayMetrics)
    → IsConsistent m
    → IsConsistent
        (count_origin_source src (inc_origin_reuse_attempt known (inc_origin_requests m)))
unfolding count_origin_source inc_origin_reuse_attempt inc_origin_requests inc_origin_tcp_requests
    inc_origin_uds_requests
origin-IsConsistent tcp known m h = ground arith
origin-IsConsistent unix known m h = ground arith

module _ (H : HttpLibrary) where
  header_value-IsConsistent :
      (req : H.HttpRequest) (name : Text) (m : GatewayMetrics)
      → IsConsistent m
      → IsConsistent (header_value H req name m).0
  unfolding header_value
  header_value-IsConsistent req name m h = grind (arith, missing_header-IsConsistent)

  endpoint_id-IsConsistent :
      (req : H.HttpRequest) (m : GatewayMetrics)
      → IsConsistent m
      → IsConsistent (endpoint_id_from_headers H req m).0
  unfolding endpoint_id_from_headers
  endpoint_id-IsConsistent req m h =
      grind (arith, header_value-IsConsistent, invalid_endpoint-IsConsistent)

  target-IsConsistent :
      (req : H.HttpRequest) (m : GatewayMetrics)
      → IsConsistent m
      → IsConsistent (target_from_headers H req m).0
  unfolding target_from_headers
  target-IsConsistent req m h =
      grind (arith, header_value-IsConsistent, invalid_target_port-IsConsistent)

  handle_tunnel-IsConsistent :
      (socket : Magicsock) (src : SrcAddr) (req : H.HttpRequest) (m : GatewayMetrics)
      → IsConsistent m
      → IsConsistent (handle_tunnel H socket src req m).0
  unfolding handle_tunnel
  handle_tunnel-IsConsistent socket src req m h =
      grind (arith, endpoint_id-IsConsistent, tunnel-IsConsistent)

  handle_origin-IsConsistent :
      (socket : Magicsock) (src : SrcAddr) (req : H.HttpRequest) (m : GatewayMetrics)
      → IsConsistent m
      → IsConsistent (handle_origin H socket src req m).0
  unfolding handle_origin
  handle_origin-IsConsistent socket src req m h =
      let m2 =
        count_origin_source src
          (inc_origin_reuse_attempt (has_existing_peer_conn socket) (inc_origin_requests m)) in
      let h3 =
        endpoint_id-IsConsistent req m2
          (origin-IsConsistent src (has_existing_peer_conn socket) m h) in
      let m3 = (endpoint_id_from_headers H req m2).0 in
      let h4 = target-IsConsistent req m3 h3 in
      elim (Result-cases (endpoint_id_from_headers H req m2).1) [
        | inr (_, e) ↦ rw (e, handle_origin) h3
        | inl (_, e) ↦ elim (Result-cases (target_from_headers H req m3).1) [
          | inr (_, f) ↦ rw (e, f, handle_origin) h4
          | inl (target, f) ↦ elim (Result-cases (H.set_absolute_http_authority req target)) [
            | inr (_, g) ↦ rw (e, f, g, handle_origin) h4
            | inl (_, g) ↦ rw (e, f, g, handle_origin) h4
          ]
        ]
      ]

  handle_request-IsConsistent :
      (socket : Magicsock) (src : SrcAddr) (req : H.HttpRequest) (m : GatewayMetrics)
      → IsConsistent m
      → IsConsistent (handle_request H socket src req m).0
  unfolding handle_request
  handle_request-IsConsistent socket src req m h = go (H.classify req) refl
    where
      h1 : IsConsistent (count_source src m)
      h1 = source-IsConsistent src m h

      go :
          (r : Result HttpRequestKind)
          → H.classify req ≡ r
          → IsConsistent (handle_request H socket src req m).0
      go (err x) e = rw (e, handle_request) h1
      go (ok tunnel) e = rw (e, handle_request) (handle_tunnel-IsConsistent socket src req _ h1)
      go (ok origin) e = rw (e, handle_request) (handle_origin-IsConsistent socket src req _ h1)
      go (ok http1_absolute) e =
          rw (e, handle_request) (handle_origin-IsConsistent socket src req _ h1)

  -- What the two listeners do with the shared counters.
  pub data Event : Type 0 where
    request : Magicsock → SrcAddr → H.HttpRequest → Event
    response : Magicsock → ℕ → Event

  pub count : List Event → GatewayMetrics → GatewayMetrics
  count [] m = m
  count (request socket src req ∷ es) m = count es (handle_request H socket src req m).0
  count (response socket status ∷ es) m = count es (count_response socket status m)

  count_from-IsConsistent :
      (es : List Event) (m : GatewayMetrics) → IsConsistent m → IsConsistent (count es m)
  unfolding count count_response
  count_from-IsConsistent [] m h = h
  count_from-IsConsistent (request socket src req ∷ es) m h =
      count_from-IsConsistent es _ (handle_request-IsConsistent socket src req m h)
  count_from-IsConsistent (response socket status ∷ es) m h =
      count_from-IsConsistent es _ (response-IsConsistent status _ m h)

  -- After any sequence of requests and error responses, denied requests included, the tunnels by
  -- source and by the state of the connection add up to all tunnels, likewise the origin requests,
  -- and the server errors by status and by the state of the connection add up to all server errors,
  -- each up to the wrap of a 64-bit counter.
  pub count-IsConsistent : (es : List Event) → IsConsistent (count es default_metrics)
  count-IsConsistent es = count_from-IsConsistent es default_metrics default_metrics-IsConsistent
