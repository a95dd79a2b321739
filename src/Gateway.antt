-- ===== src/Gateway.antt =====
-- lib/src/gateway.rs and lib/src/gateway/metrics.rs: the HTTP gateway in front of the nodes.
-- A counter is an AtomicU64, whose `fetch_add` wraps.
pub mod Metrics
pub mod Resolver
pub mod Responder
mod Tests
use datum_connect.Base.{
  ℕ, zero, suc, ◌+◌, ◌-◌, ◌*◌, ◌/◌, ◌%◌, ◌^◌, ◌≤◌, ◌<◌, min, max, String, ◌≡◌, refl, sym, ap, subst,
  ◌∙◌, ◌≢◌, ◌↔◌, ◌⊎◌, inl, inr, Bool, true, false, not, ◌&&◌, ◌||◌, Option, none, some, List, [],
  ◌∷◌, ◌++◌, map, arith, if◌then◌else◌, Eq, ◌==◌, ==_refl, eq_of_==, option_eq, nat_eq, text_eq,
  Bool-cases, ltb, leb, u16_max, u32_max, u64_mod, ltb→lt, lt→ltb, leb→le, le→leb, tests, length,
  any, all, find, keep, All, Option-cases, length-append, find-test, find-eq-none, Result, ok, err,
  ◌>>=◌, ◌>>◌, context, std_context, to_option, is_ok, Result-cases,
}

-- `counter.fetch_add(1, Ordering::Relaxed)`
abbrev pub bump : ℕ → ℕ
bump n = (n + 1) % u64_mod

pub record GatewayMetrics : Type 0 where
  pub requests_tunnel : ℕ
  pub requests_origin : ℕ
  pub requests_tcp : ℕ
  pub requests_uds : ℕ
  pub requests_tunnel_tcp : ℕ
  pub requests_tunnel_uds : ℕ
  pub requests_origin_tcp : ℕ
  pub requests_origin_uds : ℕ
  pub tunnel_reuse_with : ℕ
  pub tunnel_reuse_without : ℕ
  pub origin_reuse_with : ℕ
  pub origin_reuse_without : ℕ
  pub denied_missing_header : ℕ
  pub denied_missing_header_node_id : ℕ
  pub denied_invalid_endpoint : ℕ
  pub denied_invalid_target_port : ℕ
  pub responses_4xx : ℕ
  pub responses_5xx : ℕ
  pub responses_500 : ℕ
  pub responses_502 : ℕ
  pub responses_503 : ℕ
  pub responses_504 : ℕ
  pub responses_other_5xx : ℕ
  pub failures_5xx_with : ℕ
  pub failures_5xx_without : ℕ

-- `GatewayMetrics::default`
abbrev pub default_metrics : GatewayMetrics
default_metrics = record {
  requests_tunnel = 0;
  requests_origin = 0;
  requests_tcp = 0;
  requests_uds = 0;
  requests_tunnel_tcp = 0;
  requests_tunnel_uds = 0;
  requests_origin_tcp = 0;
  requests_origin_uds = 0;
  tunnel_reuse_with = 0;
  tunnel_reuse_without = 0;
  origin_reuse_with = 0;
  origin_reuse_without = 0;
  denied_missing_header = 0;
  denied_missing_header_node_id = 0;
  denied_invalid_endpoint = 0;
  denied_invalid_target_port = 0;
  responses_4xx = 0;
  responses_5xx = 0;
  responses_500 = 0;
  responses_502 = 0;
  responses_503 = 0;
  responses_504 = 0;
  responses_other_5xx = 0;
  failures_5xx_with = 0;
  failures_5xx_without = 0;
}

-- The counters of iroh's endpoint that `has_existing_peer_conn` reads.
pub record Magicsock : Type 0 where
  pub num_direct_conns_added : ℕ
  pub num_direct_conns_removed : ℕ
  pub num_relay_conns_added : ℕ
  pub num_relay_conns_removed : ℕ

-- `saturating_sub` is `-` on the natural numbers. The sum is of two counts of live connections,
-- far below 2^64.
pub has_existing_peer_conn : Magicsock → Bool
has_existing_peer_conn m = ltb 0 (
    (m.num_direct_conns_added - m.num_direct_conns_removed)
    + (m.num_relay_conns_added - m.num_relay_conns_removed))
