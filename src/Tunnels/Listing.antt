-- ===== src/Tunnels/Listing.antt =====
-- `TunnelService::list_project`, `list_active` and `get_active`: the tunnels of a project, which the
-- local node takes over.
use datum_connect.Base.{
  Bool, false, Option, none, some, List, [], ◌∷◌, if◌then◌else◌, ◌==◌, option_eq, nat_eq, text_eq,
  any, find, ok,
}
use datum_connect.Text.{Text}
use datum_connect.Node.{unwrap_or}
use datum_connect.Connection.{EndpointAddr}
use datum_connect.Resources.{ConnectorAdvertisement, Connector, HttpProxy}
use datum_connect.State.Store.{Disk}
use datum_connect.Tunnels.{
  advertisement_connector_field, proxy_uses_connector, TunnelSummary, normalize_endpoint,
  proxy_backend_endpoint, Url,
}
use datum_connect.Tunnels.Io.{ControlPlane, Io, call, ◌>>=◌, ◌>>◌, pure}
use datum_connect.Tunnels.Connectors.{selector, find_connector}
use datum_connect.Tunnels.Service.{label_of, summary_of, store_summary}

-- `enabled_by_name.contains_key(name)`
abbrev pub is_advertised : Text → ConnectorAdvertisement → Bool
is_advertised name ad = elim ad.metadata.name [ none ↦ false | some n ↦ n == name ]

-- The tunnels of the proxies that use the connector; a proxy without a name is passed over.
unfoldable pub tunnels_of : Text → List ConnectorAdvertisement → List HttpProxy → List TunnelSummary
tunnels_of connector_name ads [] = []
tunnels_of connector_name ads (proxy ∷ proxies) =
    let rest = tunnels_of connector_name ads proxies in
    elim proxy.metadata.name [
      | none ↦ rest
      | some name ↦
          if proxy_uses_connector proxy connector_name
          then summary_of proxy name (label_of proxy name)
              (normalize_endpoint (unwrap_or (proxy_backend_endpoint proxy) []))
              (any (is_advertised name) ads)
            ∷ rest
          else rest
    ]

module _ (K : ControlPlane) (D : Disk) (parse_url : Text → Option Url) (addr : EndpointAddr)
    (publish_tickets : Bool) where
  unfoldable pub store_all : List TunnelSummary → Io K D (Unit {0})
  store_all [] = pure (ok tt)
  store_all (t ∷ ts) = store_summary K D parse_url addr publish_tickets t >> store_all ts

  -- The calls of `list_project` in a project whose connector was found.
  unfoldable pub listed : Text → Connector → Io K D (List TunnelSummary)
  unfolding store_all
  listed project_id connector = do
    client ← call (K.connect project_id)
    proxies ← call (K.list_proxies client)
    ads ←
        call (
          K.list_ads client
            (selector advertisement_connector_field (K.name_any connector.metadata)))
    let tunnels = tunnels_of (K.name_any connector.metadata) ads proxies
    store_all tunnels >> pure (ok tunnels)

  unfoldable pub list_project : Text → Io K D (List TunnelSummary)
  unfolding listed
  list_project project_id = find_connector K D addr project_id >>= λ found. elim found [
    | none ↦ pure (ok [])
    | some connector ↦ listed project_id connector
  ]

  -- `list_active`, with the selected project if there is one
  unfoldable pub list_active : Option Text → Io K D (List TunnelSummary)
  unfolding list_project
  list_active none = pure (ok [])
  list_active (some project_id) = list_project project_id

  abbrev has_id : Text → TunnelSummary → Bool
  has_id tunnel_id t = t.id == tunnel_id

  unfoldable pub get_active : Option Text → Text → Io K D (Option TunnelSummary)
  unfolding list_active
  get_active selected tunnel_id =
      list_active selected >>= λ tunnels. pure (ok (find (has_id tunnel_id) tunnels))
