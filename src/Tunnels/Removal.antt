-- ===== src/Tunnels/Removal.antt =====
-- `TunnelService::delete_project`: a tunnel is deleted, and with the last one the connector.
use datum_connect.Base.{
  Bool, true, false, Option, none, some, List, [], ◌∷◌, if◌then◌else◌, option_eq, nat_eq, text_eq,
  any, ok,
}
use datum_connect.Text.{Text}
use datum_connect.Connection.{EndpointAddr}
use datum_connect.Resources.{Connector, ConnectorAdvertisement, HttpProxy}
use datum_connect.State.Store.{Disk, remove_proxy_state}
use datum_connect.Tunnels.{advertisement_connector_field, proxy_uses_connector, TunnelDeleteOutcome}
use datum_connect.Tunnels.Io.{ControlPlane, Io, call, local, ◌>>=◌, ◌>>◌, pure, attempt}
use datum_connect.Tunnels.Connectors.{selector, find_connector}

abbrev pub uses : Text → HttpProxy → Bool
uses connector_name proxy = proxy_uses_connector proxy connector_name

module _ (K : ControlPlane) (D : Disk) where
  abbrev delete_if {ℓ} : {A : Type ℓ} → Option A → Io K D (Unit {0}) → Io K D (Unit {0})
  delete_if none act = pure (ok tt)
  delete_if (some a) act = act

  -- The proxy and the advertisement of the tunnel.
  unfoldable pub delete_objects : K.Client → Text → Io K D (Unit {0})
  delete_objects client tunnel_id = do
    proxy ← call (K.get_opt_proxy client tunnel_id)
    _ ← delete_if proxy (call (K.delete_proxy client tunnel_id))
    ad ← call (K.get_opt_ad client tunnel_id)
    delete_if ad (call (K.delete_ad client tunnel_id))

  -- The advertisements that are left; a failure is only logged.
  unfoldable pub delete_ads : K.Client → List ConnectorAdvertisement → Io K D (Unit {0})
  delete_ads client [] = pure (ok tt)
  delete_ads client (ad ∷ ads) =
      let rest = delete_ads client ads in
      elim ad.metadata.name [
        | none ↦ rest
        | some name ↦ attempt (call (K.delete_ad client name)) >> rest
      ]

  unfoldable pub drop_connector : K.Client → Text → Io K D Bool
  drop_connector client connector_name = do
    connector ← call (K.get_opt_connector client connector_name)
    elim connector [
      | none ↦ pure (ok false)
      | some c ↦ call (K.delete_connector client connector_name) >> pure (ok true)
    ]

  unfoldable pub release_objects : K.Client → Text → Io K D Bool
  unfolding delete_ads drop_connector
  release_objects client connector_name = do
    ads ← call (K.list_ads client (selector advertisement_connector_field connector_name))
    _ ← delete_ads client ads
    drop_connector client connector_name

  -- The connector and what is left of its advertisements, if no proxy uses it any more.
  unfoldable pub release_connector : K.Client → Text → Io K D Bool
  unfolding release_objects
  release_connector client connector_name = do
    remaining ← call (K.list_proxies client)
    (if any (uses connector_name) remaining
        then pure (ok false)
        else release_objects client connector_name)

module _ (K : ControlPlane) (D : Disk) (addr : EndpointAddr) where
  -- The deletion in a project whose connector was found.
  unfoldable pub delete_with : Text → Text → Connector → Io K D TunnelDeleteOutcome
  unfolding delete_objects release_connector
  delete_with project_id tunnel_id connector = do
    client ← call (K.connect project_id)
    _ ← delete_objects K D client tunnel_id
    _ ← attempt (local λ w. remove_proxy_state D w tunnel_id)
    connector_deleted ← release_connector K D client (K.name_any connector.metadata)
    pure (ok (record { project_id = project_id; connector_deleted = connector_deleted }))

  unfoldable pub delete_project : Text → Text → Io K D TunnelDeleteOutcome
  unfolding delete_with
  delete_project project_id tunnel_id = find_connector K D addr project_id >>= λ found. elim found [
    | none ↦ pure (ok (record { project_id = project_id; connector_deleted = false }))
    | some connector ↦ delete_with project_id tunnel_id connector
  ]
