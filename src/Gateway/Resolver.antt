-- ===== src/Gateway/Resolver.antt =====
-- `HeaderResolver::handle_request`: which node a request goes to, and how it is rewritten.
-- The HTTP library (hyper, iroh_proxy_utils) is a parameter: requests with their headers, their
-- classification and the rewriting of their target. So is the parser of endpoint ids (iroh).
pub mod Rewrites
pub mod Counts
use datum_connect.Base.{
  ℕ, zero, suc, ◌+◌, ◌-◌, ◌*◌, ◌/◌, ◌%◌, ◌^◌, ◌≤◌, ◌<◌, min, max, String, ◌≡◌, refl, sym, ap, subst,
  ◌∙◌, ◌≢◌, ◌↔◌, ◌⊎◌, inl, inr, Bool, true, false, not, ◌&&◌, ◌||◌, Option, none, some, List, [],
  ◌∷◌, ◌++◌, map, arith, if◌then◌else◌, Eq, ◌==◌, ==_refl, eq_of_==, option_eq, nat_eq, text_eq,
  Bool-cases, ltb, leb, u16_max, u32_max, u64_mod, ltb→lt, lt→ltb, leb→le, le→leb, tests, length,
  any, all, find, keep, All, Option-cases, length-append, find-test, find-eq-none, Result, ok, err,
  ◌>>=◌, ◌>>◌, context, std_context, to_option, is_ok, Result-cases,
}
use datum_connect.Text.{Text, codes, parse_uint}
use datum_connect.Request.{Authority}
use datum_connect.Gateway.{GatewayMetrics, Magicsock, has_existing_peer_conn}
use datum_connect.Gateway.Metrics.{
  header_node_id, inc_tunnel_requests, inc_origin_requests, inc_tunnel_reuse_attempt,
  inc_origin_reuse_attempt, inc_tunnel_tcp_requests, inc_tunnel_uds_requests,
  inc_origin_tcp_requests, inc_origin_uds_requests, inc_tcp_requests, inc_uds_requests,
  inc_denied_missing_header_name, inc_denied_invalid_endpoint, inc_denied_invalid_target_port,
}

abbrev pub header_target_host : Text
header_target_host = codes "x-datum-target-host"

abbrev pub header_target_port : Text
header_target_port = codes "x-datum-target-port"

abbrev pub datum_headers : List Text
datum_headers = header_node_id ∷ header_target_host ∷ header_target_port ∷ []

pub data SrcAddr : Type 0 where
  tcp unix : SrcAddr

pub data HttpRequestKind : Type 0 where
  tunnel origin http1_absolute : HttpRequestKind

pub record HttpLibrary : Type 1 where
  pub HttpRequest : Type 0
  pub EndpointId : Type 0
  pub classify : HttpRequest → Result HttpRequestKind
  -- `headers.get(name).and_then(|value| value.to_str().ok())`
  pub header : HttpRequest → Text → Option Text
  pub remove_headers : HttpRequest → List Text → HttpRequest
  pub set_absolute_http_authority : HttpRequest → Authority → Result HttpRequest
  -- `EndpointId::from_str`
  pub endpoint_id_from_str : Text → Option EndpointId

-- The counters by source; the Unix arms are compiled in.
unfoldable pub count_source : SrcAddr → GatewayMetrics → GatewayMetrics
count_source tcp m = inc_tcp_requests m
count_source unix m = inc_uds_requests m

unfoldable pub count_tunnel_source : SrcAddr → GatewayMetrics → GatewayMetrics
count_tunnel_source tcp m = inc_tunnel_tcp_requests m
count_tunnel_source unix m = inc_tunnel_uds_requests m

unfoldable pub count_origin_source : SrcAddr → GatewayMetrics → GatewayMetrics
count_origin_source tcp m = inc_origin_tcp_requests m
count_origin_source unix m = inc_origin_uds_requests m

module _ (H : HttpLibrary) where
  open H use {HttpRequest, EndpointId}

  -- The outcome of a handler that counts. A `Deny` is its message, without the header's name.
  abbrev pub Counted {ℓ} : Type ℓ → Type ℓ
  Counted A = GatewayMetrics × Result A

  -- `HeaderResolver::header_value`
  unfoldable pub header_value : HttpRequest → Text → GatewayMetrics → Counted Text
  header_value req name m = elim (H.header req name) [
    | some value ↦ (m, ok value)
    | none ↦ (inc_denied_missing_header_name name m, err "Missing header")
  ]

  -- `HeaderResolver::endpoint_id_from_headers`
  unfoldable pub endpoint_id_from_headers : HttpRequest → GatewayMetrics → Counted EndpointId
  unfolding header_value
  endpoint_id_from_headers req m =
      let (m', value) = header_value req header_node_id m in
      elim value [
        | err e ↦ (m', err e)
        | ok s ↦ elim (H.endpoint_id_from_str s) [
          | some id ↦ (m', ok id)
          | none ↦ (inc_denied_invalid_endpoint m', err "invalid x-iroh-endpoint-id value")
        ]
      ]

  -- The target that the headers name.
  unfoldable pub target_from_headers : HttpRequest → GatewayMetrics → Counted Authority
  unfolding header_value
  target_from_headers req m =
      let (m1, host) = header_value req header_target_host m in
      elim host [
        | err e ↦ (m1, err e)
        | ok host ↦
            let (m2, port_str) = header_value req header_target_port m1 in
            elim port_str [
              | err e ↦ (m2, err e)
              | ok s ↦ elim (parse_uint u16_max s) [
                | none ↦
                    (inc_denied_invalid_target_port m2, err "invalid x-datum-target-port header")
                | some port ↦ (m2, ok (record { host = host; port = port }))
              ]
            ]
      ]

  -- The arm for a tunnel.
  unfoldable pub handle_tunnel :
      Magicsock → SrcAddr → HttpRequest → GatewayMetrics → Counted (EndpointId × HttpRequest)
  unfolding endpoint_id_from_headers
  handle_tunnel socket src req m =
      let m1 = inc_tunnel_reuse_attempt (has_existing_peer_conn socket) (inc_tunnel_requests m) in
      let m2 = count_tunnel_source src m1 in
      let (m3, id) = endpoint_id_from_headers req m2 in
      elim id [ err e ↦ (m3, err e) | ok id ↦ (m3, ok (id, H.remove_headers req datum_headers)) ]

  -- The arm for requests in origin and in absolute form.
  unfoldable pub handle_origin :
      Magicsock → SrcAddr → HttpRequest → GatewayMetrics → Counted (EndpointId × HttpRequest)
  unfolding endpoint_id_from_headers target_from_headers
  handle_origin socket src req m =
      let m1 = inc_origin_reuse_attempt (has_existing_peer_conn socket) (inc_origin_requests m) in
      let m2 = count_origin_source src m1 in
      let (m3, id) = endpoint_id_from_headers req m2 in
      elim id [
        | err e ↦ (m3, err e)
        | ok id ↦
            let (m4, target) = target_from_headers req m3 in
            elim target [
              | err e ↦ (m4, err e)
              | ok target ↦ elim (H.set_absolute_http_authority req target) [
                | err e ↦ (m4, err e)
                | ok req' ↦ (m4, ok (id, H.remove_headers req' datum_headers))
              ]
            ]
      ]

  unfoldable pub handle_request :
      Magicsock → SrcAddr → HttpRequest → GatewayMetrics → Counted (EndpointId × HttpRequest)
  unfolding handle_tunnel handle_origin count_source count_tunnel_source count_origin_source
  handle_request socket src req m =
      let m1 = count_source src m in
      elim (H.classify req) [
        | err e ↦ (m1, err e)
        | ok kind ↦ elim kind [
          | tunnel ↦ handle_tunnel socket src req m1
          | origin ↦ handle_origin socket src req m1
          | http1_absolute ↦ handle_origin socket src req m1
        ]
      ]
