-- ===== src/Gateway/Resolver/Rewrites.antt =====
-- Where `handle_request` sends a request, and what it forwards.
use datum_connect.Base.{
  ℕ, ◌+◌, ◌&&◌, leb, [], ◌∷◌, ==_refl, ◌≡◌, refl, ◌↔◌, ◌⊎◌, inl, inr, Bool, true, Option, none,
  some, List, arith, if◌then◌else◌, ◌==◌, option_eq, nat_eq, text_eq, u16_max, any, Result, ok, err,
  Result-cases,
}
use datum_connect.Text.{Text, codes, parse_uint}
use datum_connect.Request.{Authority}
use datum_connect.Gateway.{GatewayMetrics, Magicsock, has_existing_peer_conn}
use datum_connect.Gateway.Metrics.{
  header_node_id, inc_tunnel_requests, inc_origin_requests, inc_tunnel_reuse_attempt,
  inc_origin_reuse_attempt,
}
use datum_connect.Gateway.Resolver.{
  header_target_host, header_target_port, datum_headers, SrcAddr, count_source, count_tunnel_source,
  count_origin_source, HttpRequestKind, tunnel, origin, http1_absolute, HttpLibrary,
  endpoint_id_from_headers, target_from_headers, handle_tunnel, handle_origin, handle_request,
}

-- `HeaderName` compares without regard to the case of ASCII letters.
abbrev lower : ℕ → ℕ
lower c = if leb b'A' c && leb c b'Z' then c + 32 else c

unfoldable pub lower_name : Text → Text
lower_name [] = []
lower_name (c ∷ s) = lower c ∷ lower_name s

abbrev pub same_name : Text → Text → Bool
same_name a b = lower_name a == lower_name b

abbrev pub member : Text → List Text → Bool
member name names = any (λ n. same_name n name) names

-- Documented behaviour of the HTTP library: what is removed is gone, and only that.
pub record IsLawful (H : HttpLibrary) : Type 0 where
  pub header-remove_headers :
      (req : H.HttpRequest) (names : List Text) (name : Text)
      → H.header (H.remove_headers req names) name
        ≡ (if member name names then none else H.header req name)

-- The headers that the gateway reads, in any case of their letters
abbrev pub IsGatewayHeader : Text → Type 0
IsGatewayHeader name =
    (lower_name name ≡ codes "x-iroh-endpoint-id")
    ⊎ (lower_name name ≡ codes "x-datum-target-host")
    ⊎ (lower_name name ≡ codes "x-datum-target-port")

lower_datum_headers :
    (lower_name header_node_id ≡ codes "x-iroh-endpoint-id")
    × (lower_name header_target_host ≡ codes "x-datum-target-host")
    × (lower_name header_target_port ≡ codes "x-datum-target-port")
unfolding lower_name
lower_datum_headers = (refl, refl, refl)

gateway-member : (name : Text) → IsGatewayHeader name → member name datum_headers ≡ true
gateway-member name h =
    let (id, host, port) = lower_datum_headers in
    ground (arith, id, host, port, h, ==_refl (lower_name name))

module _ (H : HttpLibrary) where
  -- The node that the request's header names.
  abbrev pub Names : H.HttpRequest → H.EndpointId → Type 0
  Names req id =
      (s : Text) × (H.header req header_node_id ≡ some s) × (H.endpoint_id_from_str s ≡ some id)

  -- The target that the request's headers name: the port is a number that fits a u16.
  abbrev pub Targets : H.HttpRequest → Authority → Type 0
  Targets req target =
      (s : Text) × (H.header req header_target_host ≡ some target.host)
      × (H.header req header_target_port ≡ some s)
      × (parse_uint u16_max s ≡ some target.port)

  endpoint_id_from_headers-Names :
      (req : H.HttpRequest) (m : GatewayMetrics) (id : H.EndpointId)
      → ((endpoint_id_from_headers H req m).1 ≡ ok id) ↔ Names req id
  unfolding endpoint_id_from_headers
  endpoint_id_from_headers-Names req m id = go (H.header req header_node_id) refl
    where
      go :
          (o : Option Text)
          → H.header req header_node_id ≡ o
          → ((endpoint_id_from_headers H req m).1 ≡ ok id) ↔ Names req id
      go none e = (λ h. absurd (ground arith), λ (s, f, g). absurd (ground arith))
      go (some s) e = (λ h. (s, e, ground arith), λ (s', f, g). ground arith)

  target_from_headers-Targets :
      (req : H.HttpRequest) (m : GatewayMetrics) (target : Authority)
      → ((target_from_headers H req m).1 ≡ ok target) ↔ Targets req target
  unfolding target_from_headers
  target_from_headers-Targets req m target = go (H.header req header_target_port) refl
    where
      go :
          (o : Option Text)
          → H.header req header_target_port ≡ o
          → ((target_from_headers H req m).1 ≡ ok target) ↔ Targets req target
      go none e = (λ h. absurd (ground arith), λ (s, g, f, p). absurd (ground arith))
      go (some s) e = (λ h. (s, ground arith, e, ground arith), λ (s', g, f, p). ground arith)

  abbrev TunnelTo : H.HttpRequest → H.HttpRequest → H.EndpointId → Type 0
  TunnelTo req req' id = Names req id × (req' ≡ H.remove_headers req datum_headers)

  abbrev OriginTo : H.HttpRequest → H.HttpRequest → H.EndpointId → Type 0
  OriginTo req req' id =
      Names req id
      × ((target : Authority) × (rewritten : H.HttpRequest) × Targets req target
          × (H.set_absolute_http_authority req target ≡ ok rewritten)
          × (req' ≡ H.remove_headers rewritten datum_headers))

  module _ (socket : Magicsock) (src : SrcAddr) (req req' : H.HttpRequest) (id : H.EndpointId)
      (m : GatewayMetrics) where
    handle_tunnel-TunnelTo :
        ((handle_tunnel H socket src req m).1 ≡ ok (id, req')) ↔ TunnelTo req req' id
    unfolding handle_tunnel
    handle_tunnel-TunnelTo = go (endpoint_id_from_headers H req m2).1 refl
      where
        m2 : GatewayMetrics
        m2 =
            count_tunnel_source src
              (inc_tunnel_reuse_attempt (has_existing_peer_conn socket) (inc_tunnel_requests m))

        go :
            (r : Result H.EndpointId)
            → (endpoint_id_from_headers H req m2).1 ≡ r
            → ((handle_tunnel H socket src req m).1 ≡ ok (id, req')) ↔ TunnelTo req req' id
        go (err x) e = (
          λ h. absurd (ground arith),
          λ (n, q). absurd (ground (arith, (endpoint_id_from_headers-Names req m2 id).1 n)),
        )
        go (ok id') e = (
          λ h. ((endpoint_id_from_headers-Names req m2 id).0 (ground arith), ground arith),
          λ (n, q). ground (arith, (endpoint_id_from_headers-Names req m2 id).1 n),
        )

    handle_origin-OriginTo :
        ((handle_origin H socket src req m).1 ≡ ok (id, req')) ↔ OriginTo req req' id
    unfolding handle_origin
    handle_origin-OriginTo = go (endpoint_id_from_headers H req m2).1 refl
      where
        m2 : GatewayMetrics
        m2 =
            count_origin_source src
              (inc_origin_reuse_attempt (has_existing_peer_conn socket) (inc_origin_requests m))

        m3 : GatewayMetrics
        m3 = (endpoint_id_from_headers H req m2).0

        with_target :
            (id' : H.EndpointId)
            → (endpoint_id_from_headers H req m2).1 ≡ ok id'
            → (r : Result Authority) → (target_from_headers H req m3).1 ≡ r
            → ((handle_origin H socket src req m).1 ≡ ok (id, req')) ↔ OriginTo req req' id
        with_target id' e (err x) f = (
          λ h. absurd (ground arith),
          λ (n, k). absurd (ground (arith, (target_from_headers-Targets req m3 k.0).1 k.2)),
        )
        with_target id' e (ok target) f =
            elim (Result-cases (H.set_absolute_http_authority req target)) [
              | inr (_, g) ↦ (
                λ h. absurd (ground arith),
                λ (n, k).
                    absurd (ground (arith, (target_from_headers-Targets req m3 k.0).1 k.2, k.3)),
              )
              | inl (rewritten, g) ↦ (
                λ h. (
                  (endpoint_id_from_headers-Names req m2 id).0 (ground arith),
                  (
                    target,
                    rewritten,
                    (target_from_headers-Targets req m3 target).0 f,
                    g,
                    ground arith,
                  ),
                ),
                λ (n, k). ground (
                  arith,
                  (endpoint_id_from_headers-Names req m2 id).1 n,
                  (target_from_headers-Targets req m3 k.0).1 k.2,
                  k.3,
                  k.4,
                ),
              )
            ]

        go :
            (r : Result H.EndpointId)
            → (endpoint_id_from_headers H req m2).1 ≡ r
            → ((handle_origin H socket src req m).1 ≡ ok (id, req')) ↔ OriginTo req req' id
        go (err x) e = (
          λ h. absurd (ground arith),
          λ (n, k). absurd (ground (arith, (endpoint_id_from_headers-Names req m2 id).1 n)),
        )
        go (ok id') e = with_target id' e (target_from_headers H req m3).1 refl

  -- A tunnel is accepted exactly if its header names a node, and then it goes to that node, less the
  -- gateway's own headers.
  pub handle_request-tunnel :
      (socket : Magicsock) (src : SrcAddr) (req req' : H.HttpRequest) (id : H.EndpointId)
      (m : GatewayMetrics)
      → H.classify req ≡ ok tunnel
      → ((handle_request H socket src req m).1 ≡ ok (id, req'))
        ↔ (Names req id × (req' ≡ H.remove_headers req datum_headers))
  unfolding handle_request
  handle_request-tunnel socket src req req' id m e =
      rw (e, handle_request) (handle_tunnel-TunnelTo socket src req req' id (count_source src m))

  -- Any other request is accepted exactly if its headers name a node and a target and the target can
  -- be put into the request, and then that goes to that node, less the gateway's own headers.
  pub handle_request-origin :
      (socket : Magicsock) (src : SrcAddr) (req req' : H.HttpRequest) (id : H.EndpointId)
      (m : GatewayMetrics)
      → (H.classify req ≡ ok origin) ⊎ (H.classify req ≡ ok http1_absolute)
      → ((handle_request H socket src req m).1 ≡ ok (id, req')) ↔ (
          Names req id
          × ((target : Authority) × (rewritten : H.HttpRequest) × Targets req target
              × (H.set_absolute_http_authority req target ≡ ok rewritten)
              × (req' ≡ H.remove_headers rewritten datum_headers)))
  unfolding handle_request
  handle_request-origin socket src req req' id m (inl e) =
      rw (e, handle_request) (handle_origin-OriginTo socket src req req' id (count_source src m))
  handle_request-origin socket src req req' id m (inr e) =
      rw (e, handle_request) (handle_origin-OriginTo socket src req req' id (count_source src m))

  -- Neither x-iroh-endpoint-id nor x-datum-target-host nor x-datum-target-port, in any case of their
  -- letters, reaches the node in a request that is forwarded.
  pub handle_request_hides :
      IsLawful H
      → (socket : Magicsock) (src : SrcAddr) (req req' : H.HttpRequest) (id : H.EndpointId)
        (m : GatewayMetrics) (name : Text)
      → (handle_request H socket src req m).1 ≡ ok (id, req')
      → IsGatewayHeader name
      → H.header req' name ≡ none
  unfolding handle_request
  handle_request_hides L socket src req req' id m name e n = go (H.classify req) refl
    where
      hidden :
          (r : H.HttpRequest) → req' ≡ H.remove_headers r datum_headers → H.header req' name ≡ none
      hidden r q = rw (q, L.header-remove_headers r datum_headers name, gateway-member name n)

      go : (r : Result HttpRequestKind) → H.classify req ≡ r → H.header req' name ≡ none
      go (err x) c = absurd (ground arith)
      go (ok tunnel) c = hidden req ((handle_request-tunnel socket src req req' id m c).0 e).1
      go (ok origin) c =
          let k = ((handle_request-origin socket src req req' id m (inl c)).0 e).1 in hidden k.1 k.4
      go (ok http1_absolute) c =
          let k = ((handle_request-origin socket src req req' id m (inr c)).0 e).1 in hidden k.1 k.4
