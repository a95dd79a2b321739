-- ===== src/Tunnels/Service.antt =====
-- The operations of `TunnelService` on the tunnels of a project. `ListenNode::set_proxy` and
-- `set_proxy_state` do the same, and so do the two removals. That a step fails and is only
-- logged is an `attempt` whose outcome is not looked at.
use datum_connect.Base.{
  Bool, true, false, Option, none, some, List, [], ◌∷◌, if◌then◌else◌, ◌==◌, option_eq, nat_eq,
  text_eq, Result, ok, err,
}
use datum_connect.Text.{Text, codes}
use datum_connect.Node.{unwrap_or}
use datum_connect.Connection.{EndpointAddr}
use datum_connect.Resources.{
  ConnectorAdvertisement, HttpProxy, condition_accepted, condition_programmed,
}
use datum_connect.State.{ProxyState}
use datum_connect.State.Store.{Disk, set_proxy_state}
use datum_connect.Tunnels.{
  display_name_annotation, TunnelSummary, has_condition, normalize_endpoint, proxy_hostnames,
  proxy_rule, proxy_backend_endpoint, ParsedTarget, advertisement_spec, Url, parse_target,
  proxy_state_from_summary,
}
use datum_connect.Tunnels.Io.{ControlPlane, Io, call, local, ◌>>=◌, ◌>>◌, pure, attempt}
use datum_connect.Tunnels.Connectors.{ensure_connector}

-- `map.get(key)`
abbrev lookup : Text → List (Text × Text) → Option Text
lookup key [] = none
lookup key ((k, v) ∷ rest) = if k == key then some v else lookup key rest

-- The display name of a proxy, or else its name.
abbrev pub label_of : HttpProxy → Text → Text
label_of proxy name = elim proxy.metadata.annotations [
  | none ↦ name
  | some labels ↦ unwrap_or (lookup display_name_annotation labels) name
]

abbrev pub summary_of : HttpProxy → Text → Text → Text → Bool → TunnelSummary
summary_of proxy tunnel_id label endpoint enabled = record {
  id = tunnel_id;
  label = label;
  endpoint = endpoint;
  hostnames = proxy_hostnames proxy;
  enabled = enabled;
  accepted = has_condition proxy condition_accepted;
  programmed = has_condition proxy condition_programmed;
}

abbrev is_some {ℓ} : {A : Type ℓ} → Option A → Bool
is_some none = false
is_some (some a) = true

abbrev new_proxy : Text → Text → Text → HttpProxy
new_proxy label endpoint connector_name = record {
  metadata = record {
    name = none;
    generate_name = some (codes "tunnel-");
    annotations = some ((display_name_annotation, label) ∷ []);
  };
  spec = record { hostnames = none; rules = proxy_rule endpoint connector_name ∷ [] };
  status = none;
}

abbrev new_ad : Text → Text → ParsedTarget → ConnectorAdvertisement
new_ad name connector_name target = record {
  metadata = record { name = some name; generate_name = none; annotations = none };
  spec = advertisement_spec connector_name target;
}

module _ (K : ControlPlane) (D : Disk) (parse_url : Text → Option Url) (addr : EndpointAddr)
    (publish_tickets : Bool) where
  -- The proxy of the local node, of which a failure to store it is only logged.
  unfoldable pub store : ProxyState → Io K D (Result (Unit {0}))
  store p = attempt (local λ w. set_proxy_state D w p)

  -- What `update_project`, `set_enabled_project` and `list_project` do for the local node.
  unfoldable pub store_summary : TunnelSummary → Io K D (Unit {0})
  unfolding store
  store_summary s =
      if publish_tickets
      then pure (ok tt)
      else elim (proxy_state_from_summary parse_url s.id s.endpoint s.label s.enabled) [
        | err e ↦ pure (ok tt)
        | ok p ↦ store p >> pure (ok tt)
      ]

  -- The objects of a new tunnel: the proxy, then the advertisement under its name.
  unfoldable pub create_objects : Text → Text → Text → ParsedTarget → Io K D HttpProxy
  create_objects project_id label endpoint target = do
    connector ← ensure_connector K D addr project_id
    client ← call (K.connect project_id)
    proxy ← call (K.create_proxy client (new_proxy label endpoint (K.name_any connector.metadata)))
    _ ← call (
        K.create_ad client
          (new_ad (K.name_any proxy.metadata) (K.name_any connector.metadata) target))
    pure (ok proxy)

  unfoldable pub create_project : Text → Text → Text → Io K D TunnelSummary
  unfolding create_objects store
  create_project project_id label endpoint =
      let endpoint = normalize_endpoint endpoint in
      pure (parse_target parse_url endpoint) >>= λ target.
      create_objects project_id label endpoint target >>= λ proxy.
      let name = K.name_any proxy.metadata in
      pure (proxy_state_from_summary parse_url name endpoint label true) >>= λ p.
      store p >> pure (ok (summary_of proxy name label endpoint true))

  -- The advertisement of a tunnel, if there is one, gets the new target.
  unfoldable pub update_ad : K.Client → Text → Text → ParsedTarget → Io K D (Unit {0})
  update_ad client tunnel_id connector_name target =
      attempt (call (K.get_opt_ad client tunnel_id)) >>= λ existing. elim existing [
        | err e ↦ pure (ok tt)
        | ok o ↦ elim o [
          | none ↦ pure (ok tt)
          | some ad ↦
              call (K.patch_ad client tunnel_id (advertisement_spec connector_name target))
              >> pure (ok tt)
        ]
      ]

  -- The calls of `update_project`, with what its summary says.
  unfoldable pub update_objects : Text → Text → Text → Text → ParsedTarget → Io K D TunnelSummary
  unfolding update_ad
  update_objects project_id tunnel_id label endpoint target = do
    connector ← ensure_connector K D addr project_id
    client ← call (K.connect project_id)
    existing ← call (K.get_proxy client tunnel_id)
    _ ← call (
        K.patch_proxy client tunnel_id (record {
          label = label;
          hostnames = unwrap_or existing.spec.hostnames [];
          rules = proxy_rule endpoint (K.name_any connector.metadata) ∷ [];
        }))
    _ ← update_ad client tunnel_id (K.name_any connector.metadata) target
    ad ← call (K.get_opt_ad client tunnel_id)
    pure (ok (summary_of existing tunnel_id label endpoint (is_some ad)))

  unfoldable pub update_project : Text → Text → Text → Text → Io K D TunnelSummary
  unfolding update_objects store_summary
  update_project project_id tunnel_id label endpoint =
      let endpoint = normalize_endpoint endpoint in
      pure (parse_target parse_url endpoint) >>= λ target.
      update_objects project_id tunnel_id label endpoint target >>= λ summary.
      store_summary summary >> pure (ok summary)

  -- The advertisement of a tunnel is what enables it.
  unfoldable pub enable : K.Client → Text → Text → Text → Io K D (Unit {0})
  enable client tunnel_id connector_name endpoint = do
    target ← pure (parse_target parse_url endpoint)
    existing ← call (K.get_opt_ad client tunnel_id)
    elim existing [
      | some ad ↦
          call (K.patch_ad client tunnel_id (advertisement_spec connector_name target))
          >> pure (ok tt)
      | none ↦ call (K.create_ad client (new_ad tunnel_id connector_name target)) >> pure (ok tt)
    ]

  -- The advertisement is deleted, if there is one.
  unfoldable pub drop_ad : K.Client → Text → Io K D (Unit {0})
  drop_ad client tunnel_id = call (K.get_opt_ad client tunnel_id) >>= λ existing. elim existing [
    | none ↦ pure (ok tt)
    | some ad ↦ call (K.delete_ad client tunnel_id)
  ]

  unfoldable pub switch_objects : Text → Text → Bool → Io K D TunnelSummary
  unfolding enable drop_ad
  switch_objects project_id tunnel_id enabled = do
    connector ← ensure_connector K D addr project_id
    client ← call (K.connect project_id)
    proxy ← call (K.get_proxy client tunnel_id)
    let endpoint = normalize_endpoint (unwrap_or (proxy_backend_endpoint proxy) [])
    _ ←
        (if enabled
          then enable client tunnel_id (K.name_any connector.metadata) endpoint
          else drop_ad client tunnel_id)
    pure (ok (summary_of proxy tunnel_id (label_of proxy tunnel_id) endpoint enabled))

  unfoldable pub set_enabled_project : Text → Text → Bool → Io K D TunnelSummary
  unfolding switch_objects store_summary
  set_enabled_project project_id tunnel_id enabled =
      switch_objects project_id tunnel_id enabled >>= λ summary.
      store_summary summary >> pure (ok summary)
