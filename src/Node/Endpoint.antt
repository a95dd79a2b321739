-- ===== src/Node/Endpoint.antt =====
-- `build_endpoint` (lib/src/node.rs): how an endpoint is set up by the configuration. The builder of
-- iroh is a record of the calls made to it.
use datum_connect.Base.{
  Bool, true, false, Option, none, some, option_eq, nat_eq, text_eq, Result, ok, err,
}
use datum_connect.Text.{Text}
use datum_connect.Repo.{Config, SocketAddr, DiscoveryMode, default, dns, hybrid}

pub record EndpointBuilder : Type 0 where
  -- `Endpoint::builder()`, with the discovery of n0des, and not `Endpoint::empty_builder`
  pub n0des_discovery : Bool
  pub bind_addr_v4 : Option SocketAddr
  pub bind_addr_v6 : Option SocketAddr
  -- the name server of `DnsResolver::builder`
  pub dns_resolver : Option SocketAddr
  -- the origin of `DnsDiscovery::builder`
  pub dns_discovery : Option Text

abbrev starts_full : DiscoveryMode → Bool
starts_full dns = false
starts_full default = true
starts_full hybrid = true

abbrev bound : Config → EndpointBuilder
bound common = record {
  n0des_discovery = starts_full common.discovery_mode;
  bind_addr_v4 = common.ipv4_addr;
  bind_addr_v6 = common.ipv6_addr;
  dns_resolver = none;
  dns_discovery = none;
}

abbrev with_dns : Config → Result EndpointBuilder
with_dns common = elim common.dns_origin [
  | none ↦ err "dns_origin is required when discovery_mode is set to dns or hybrid"
  | some origin ↦
      ok (record (bound common) { dns_resolver = common.dns_resolver; dns_discovery = some origin })
]

abbrev discovery : DiscoveryMode → Config → Result EndpointBuilder
discovery default common = ok (bound common)
discovery dns common = with_dns common
discovery hybrid common = with_dns common

-- The endpoint before it is bound
unfoldable pub build_endpoint : Config → Result EndpointBuilder
build_endpoint common = discovery common.discovery_mode common
