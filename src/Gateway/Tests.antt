-- ===== src/Gateway/Tests.antt =====
-- Runs of the gateway over a small HTTP library, and instances of its theorems.
use datum_connect.Base.{
  ◌≡◌, refl, ap, any, eq_of_==, true, ◌↔◌, inl, inr, Option, none, some, List, [], ◌∷◌, arith,
  if◌then◌else◌, ◌==◌, option_eq, nat_eq, text_eq, ok,
}
use datum_connect.Text.{Text, codes, parse_uint}
use datum_connect.Request.{Authority}
use datum_connect.Gateway.{Magicsock, default_metrics}
use datum_connect.Gateway.Metrics.{header_node_id}
use datum_connect.Gateway.Metrics.Sums.{IsConsistent}
use datum_connect.Gateway.Metrics.Render.{EndpointMetrics, gateway_items, endpoint_items}
use datum_connect.Gateway.Metrics.Samples.{sample_names, distinct, render-distinct}
use datum_connect.Gateway.Resolver.{
  header_target_host, header_target_port, datum_headers, tcp, unix, HttpRequestKind, tunnel, origin,
  HttpLibrary, handle_request,
}
use datum_connect.Gateway.Resolver.Counts.{Event, request, response, count, count-IsConsistent}
use datum_connect.Gateway.Resolver.Rewrites.{
  lower_name, same_name, member, IsLawful, Names, Targets, handle_request-tunnel,
  handle_request-origin, handle_request_hides,
}

record SmallRequest : Type 0 where
  kind : HttpRequestKind
  headers : List (Text × Text)
  target : Option Authority

-- The value of the first header of the name, in any case of its letters.
get : Text → List (Text × Text) → Option Text
get name [] = none
get name ((n, v) ∷ hs) = if same_name n name then some v else get name hs

without : List Text → List (Text × Text) → List (Text × Text)
without names [] = []
without names ((n, v) ∷ hs) =
    let rest = without names hs in if member n names then rest else (n, v) ∷ rest

member-same_name :
    (names : List Text) (n name : Text)
    → same_name n name ≡ true
    → member n names ≡ member name names
member-same_name names n name h =
    ap (λ k. any (λ m. lower_name m == k) names) (eq_of_== (lower_name n) (lower_name name) h)

get-without :
    (names : List Text) (name : Text) (hs : List (Text × Text))
    → get name (without names hs) ≡ (if member name names then none else get name hs)
unfolding get without
get-without names name [] = ground arith
get-without names name ((n, v) ∷ hs) =
    ground (arith, get-without names name hs, member-same_name names n name)

abbrev small : HttpLibrary
small = record {
  HttpRequest = SmallRequest;
  EndpointId = Text;
  classify = λ r. ok r.kind;
  header = λ r name. get name r.headers;
  remove_headers = λ r names. record r { headers = without names r.headers };
  set_absolute_http_authority = λ r a. ok (record r { target = some a });
  endpoint_id_from_str = λ s. if s == [] then none else some s;
}

small-IsLawful : IsLawful small
small-IsLawful = record { header-remove_headers = λ r names name. get-without names name r.headers }

abbrev idle : Magicsock
idle = record {
  num_direct_conns_added = 3;
  num_direct_conns_removed = 3;
  num_relay_conns_added = 0;
  num_relay_conns_removed = 0;
}

abbrev all_headers : List (Text × Text)
all_headers =
    (header_node_id, codes "node")
    ∷ (header_target_host, codes "localhost")
    ∷ (header_target_port, codes "5173")
    ∷ []

abbrev connect : SmallRequest
connect = record { kind = tunnel; headers = all_headers; target = none }

abbrev page : SmallRequest
page = record { kind = origin; headers = all_headers; target = none }

abbrev bare : SmallRequest
bare = record { kind = origin; headers = []; target = none }

handle_request-tunnel_example :
    ((handle_request small idle tcp connect default_metrics).1
      ≡ ok (codes "node", small.remove_headers connect datum_headers))
    ↔ (Names small connect (codes "node")
        × (small.remove_headers connect datum_headers ≡ small.remove_headers connect datum_headers))
handle_request-tunnel_example =
    handle_request-tunnel small idle tcp connect (small.remove_headers connect datum_headers)
      (codes "node") default_metrics refl

abbrev forwarded : SmallRequest
forwarded = record {
  kind = origin;
  headers = [];
  target = some (record { host = codes "localhost"; port = 5173 });
}

handle_request-origin_example :
    ((handle_request small idle unix page default_metrics).1 ≡ ok (codes "node", forwarded)) ↔ (
      Names small page (codes "node")
      × ((target : Authority) × (rewritten : SmallRequest) × Targets small page target
          × (small.set_absolute_http_authority page target ≡ ok rewritten)
          × (forwarded ≡ small.remove_headers rewritten datum_headers)))
handle_request-origin_example =
    handle_request-origin small idle unix page forwarded (codes "node") default_metrics (inl refl)

accepted : (handle_request small idle unix page default_metrics).1 ≡ ok (codes "node", forwarded)
unfolding handle_request get without lower_name nat_eq text_eq parse_uint
accepted = refl

handle_request_hides_example : small.header forwarded (codes "X-Datum-Target-Host") ≡ none
unfolding lower_name
handle_request_hides_example =
    handle_request_hides small small-IsLawful idle unix page forwarded (codes "node")
      default_metrics (codes "X-Datum-Target-Host") accepted (inr (inl refl))

abbrev traffic : List (Event small)
traffic =
    request idle tcp connect ∷ request idle unix bare ∷ response idle 502 ∷ response idle 404 ∷ []

count-IsConsistent_example : IsConsistent (count small traffic default_metrics)
count-IsConsistent_example = count-IsConsistent small traffic

abbrev quiet : EndpointMetrics
quiet = record {
  num_direct_conns_added = 0;
  num_direct_conns_removed = 0;
  num_relay_conns_added = 0;
  num_relay_conns_removed = 0;
  send_relay_error = 0;
  relay_home_change = 0;
  connection_handshake_success = 0;
  endpoints_contacted = 0;
  endpoints_contacted_directly = 0;
  path_ping_failures = 0;
  path_marked_outdated = 0;
  path_failure_resets = 0;
  recv_data_ipv4 = 0;
  recv_data_ipv6 = 0;
  recv_data_relay = 0;
  send_data = 0;
}

render-distinct_example :
    distinct (sample_names (gateway_items default_metrics (endpoint_items quiet))) ≡ true
render-distinct_example = render-distinct quiet default_metrics
