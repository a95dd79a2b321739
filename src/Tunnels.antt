-- ===== src/Tunnels.antt =====
-- lib/src/tunnels.rs: the service that makes the tunnels of a project, in the control plane and in
-- the local node. Here are its helpers; the URL parser (crate url) is an argument.
pub mod Io
pub mod Connectors
pub mod Service
pub mod Removal
pub mod Listing
mod Active
pub mod Quiet
pub mod Local
pub mod Creation
pub mod Changes
pub mod Deletion
pub mod Takeover
mod Tests
use datum_connect.Base.{
  ℕ, zero, suc, ◌+◌, ◌-◌, ◌*◌, ◌/◌, ◌%◌, ◌^◌, ◌≤◌, ◌<◌, min, max, String, ◌≡◌, refl, sym, ap, subst,
  ◌∙◌, ◌≢◌, ◌↔◌, ◌⊎◌, inl, inr, Bool, true, false, not, ◌&&◌, ◌||◌, Option, none, some, List, [],
  ◌∷◌, ◌++◌, map, arith, if◌then◌else◌, Eq, ◌==◌, ==_refl, eq_of_==, option_eq, nat_eq, text_eq,
  Bool-cases, ltb, leb, u16_max, u32_max, u64_mod, ltb→lt, lt→ltb, leb→le, le→leb, tests, length,
  any, all, find, keep, All, Option-cases, length-append, find-test, find-eq-none, Result, ok, err,
  ◌>>=◌, ◌>>◌, context, std_context, to_option, is_ok, Result-cases,
}
use datum_connect.Text.{
  Text, codes, trim, contains, starts_with, strip_prefix, rsplit_once, parse_uint, print_uint,
}
use datum_connect.Node.{or_else, unwrap_or}
use datum_connect.Connection.{first}
use datum_connect.State.{ProxyState, from_host_port_str, with_id}
use datum_connect.Resources.{
  Condition, HttpProxy, HttpProxyRule, HttpProxyRuleBackend, HttpRouteMatch,
  ConnectorAdvertisementSpec, path_prefix, condition_accepted, condition_programmed, tcp,
}

abbrev pub display_name_annotation : Text
display_name_annotation = codes "app.kubernetes.io/name"

abbrev pub connector_selector_field : Text
connector_selector_field = codes "status.connectionDetails.publicKey.id"

abbrev pub advertisement_connector_field : Text
advertisement_connector_field = codes "spec.connectorRef.name"

abbrev pub refers_to : Text → HttpProxyRuleBackend → Bool
refers_to connector_name backend = elim backend.connector [
  | none ↦ false
  | some c ↦ c.name == connector_name
]

abbrev pub rule_uses : Text → HttpProxyRule → Bool
rule_uses connector_name rule = elim rule.backends [
  | none ↦ false
  | some backends ↦ any (refers_to connector_name) backends
]

unfoldable pub proxy_uses_connector : HttpProxy → Text → Bool
proxy_uses_connector proxy connector_name = any (rule_uses connector_name) proxy.spec.rules

pub record TunnelSummary : Type 0 where
  pub id : Text
  pub label : Text
  pub endpoint : Text
  pub hostnames : List Text
  pub enabled : Bool
  pub accepted : Bool
  pub programmed : Bool

pub record TunnelDeleteOutcome : Type 0 where
  pub project_id : Text
  pub connector_deleted : Bool

abbrev is_kind : Text → Condition → Bool
is_kind kind c = c.type_ == kind

unfoldable pub condition_is_true : Option (List Condition) → Text → Bool
condition_is_true conditions kind = elim (find (is_kind kind) (unwrap_or conditions [])) [
  | none ↦ false
  | some c ↦ c.status == codes "True"
]

-- `condition_is_true` at the conditions of a proxy's status
unfoldable pub has_condition : HttpProxy → Text → Bool
unfolding condition_is_true
has_condition proxy kind = elim proxy.status [
  | none ↦ condition_is_true none kind
  | some s ↦ condition_is_true s.conditions kind
]

unfoldable pub normalize_endpoint : Text → Text
normalize_endpoint endpoint =
    let endpoint = trim endpoint in
    if endpoint == []
    then endpoint
    else if contains endpoint (codes "://")
    then endpoint
    else codes "http://" ++ endpoint

unfoldable pub proxy_hostnames : HttpProxy → List Text
proxy_hostnames proxy = elim proxy.status [
  | none ↦ unwrap_or proxy.spec.hostnames []
  | some s ↦ unwrap_or (or_else s.hostnames proxy.spec.hostnames) []
]

abbrev default_match : HttpRouteMatch
default_match = record { path = some (some path_prefix, some (codes "/")) }

pub proxy_rule : Text → Text → HttpProxyRule
proxy_rule endpoint connector_name = record {
  name = none;
  matches = default_match ∷ [];
  backends =
      some
        (record { endpoint = endpoint; connector = some (record { name = connector_name }) } ∷ []);
}

unfoldable pub proxy_backend_endpoint : HttpProxy → Option Text
proxy_backend_endpoint proxy = elim (first proxy.spec.rules) [
  | none ↦ none
  | some rule ↦ elim rule.backends [
    | none ↦ none
    | some backends ↦ elim (first backends) [ none ↦ none | some b ↦ some b.endpoint ]
  ]
]

pub record ParsedTarget : Type 0 where
  pub address : Text
  pub port : ℕ

pub advertisement_spec : Text → ParsedTarget → ConnectorAdvertisementSpec
advertisement_spec connector_name target = record {
  connector_ref = record { name = connector_name };
  layer4 = some (
      record {
        name = codes "default";
        services =
            record {
              address = record { value = target.address };
              ports =
                  record {
                    name = codes "tcp-" ++ print_uint target.port;
                    port = target.port;
                    protocol = tcp;
                  }
                  ∷ [];
            }
            ∷ [];
      }
      ∷ []);
}

-- The parts of a URL that are read: `host_str` and `port`, the latter only if it is not the
-- default port of the scheme.
pub record Url : Type 0 where
  pub host_str : Option Text
  pub port : Option ℕ

-- Round the first `]`.
split_bracket : Text → Option (Text × Text)
split_bracket [] = none
split_bracket (c ∷ s) = elim (split_bracket s) [
  | none ↦ if c == b']' then some ([], s) else none
  | some (before, behind) ↦ if c == b']' then some ([], s) else some (c ∷ before, behind)
]

-- The host and the port of a target that is not a URL.
target_parts : Text → Result (Text × Text)
unfolding split_bracket
target_parts [] = context (rsplit_once [] b':') "missing port"
target_parts (c ∷ rest) =
    if c == b'['
    then (context (split_bracket rest) "invalid IPv6 address" >>= λ (host, behind).
        context (strip_prefix behind (codes ":")) "missing port" >>= λ port. ok (host, port))
    else context (rsplit_once (c ∷ rest) b':') "missing port"

module _ (parse_url : Text → Option Url) where
  unfoldable pub parse_target : Text → Result ParsedTarget
  unfolding target_parts
  parse_target target =
      let target = trim target in
      elim (parse_url target) [
        | some url ↦ context url.host_str "missing host" >>= λ host.
            context url.port "missing port" >>= λ port. ok (record { address = host; port = port })
        | none ↦ target_parts target >>= λ (host, port_str).
            context (parse_uint u16_max port_str) "invalid port" >>= λ port.
            ok (record { address = host; port = port })
      ]

  unfoldable pub strip_scheme : Text → Text
  strip_scheme endpoint = elim (parse_url endpoint) [
    | none ↦ endpoint
    | some url ↦ elim url.host_str [
      | none ↦ endpoint
      | some host ↦ elim url.port [ none ↦ endpoint | some port ↦ host ++ b':' ∷ print_uint port ]
    ]
  ]

  unfoldable pub proxy_state_from_summary : Text → Text → Text → Bool → Result ProxyState
  unfolding strip_scheme
  proxy_state_from_summary tunnel_id endpoint label enabled =
      from_host_port_str (strip_scheme endpoint) >>= λ data_.
      ok (record { info = with_id tunnel_id data_ (some label); enabled = enabled })
