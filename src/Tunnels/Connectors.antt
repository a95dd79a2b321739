-- ===== src/Tunnels/Connectors.antt =====
-- `TunnelService::find_connector` and `TunnelService::ensure_connector`: the connector of the local
-- node in a project. `addr` is the address of the node's endpoint.
use datum_connect.Base.{
  Bool, true, not, Option, none, some, List, [], ◌∷◌, ◌++◌, if◌then◌else◌, ◌==◌, option_eq, nat_eq,
  text_eq, ok, err,
}
use datum_connect.Text.{Text, codes}
use datum_connect.Connection.{EndpointAddr, build_connection_details}
use datum_connect.Resources.{Connector}
use datum_connect.State.Store.{Disk}
use datum_connect.Tunnels.{connector_selector_field}
use datum_connect.Tunnels.Io.{ControlPlane, Io, call, ◌>>=◌, pure, attempt}

-- `status.connection_details.public_key.id`
abbrev details_id : Connector → Option Text
details_id c = elim c.status [
  | none ↦ none
  | some s ↦ elim s.connection_details [
    | none ↦ none
    | some d ↦ elim d.public_key [ none ↦ none | some key ↦ some key.id ]
  ]
]

-- `needs_patch`
abbrev needs_patch : Text → Connector → Bool
needs_patch endpoint_id c = elim (details_id c) [ none ↦ true | some i ↦ not (i == endpoint_id) ]

-- `format!("{field}={value}")`
abbrev pub selector : Text → Text → Text
selector field value = field ++ b'=' ∷ value

module _ (K : ControlPlane) (D : Disk) (addr : EndpointAddr) where
  -- A single connector without the node's id is adopted.
  unfoldable pub adopt : K.Client → Connector → Io K D (Option Connector)
  unfolding build_connection_details
  adopt client connector =
      if needs_patch addr.id connector
      then elim (build_connection_details addr) [
        | none ↦ pure (ok (some connector))
        | some details ↦
            attempt (call (K.patch_connector_status client (K.name_any connector.metadata) details))
            >>= λ patched. elim patched [
              | err e ↦ pure (ok (some connector))
              | ok _ ↦ call (K.get_connector client (K.name_any connector.metadata)) >>= λ c.
                  pure (ok (some c))
            ]
      ]
      else pure (ok (some connector))

  -- Without a connector of the node's id, the only connector there is counts.
  unfoldable pub fallback : K.Client → List Connector → Io K D (Option Connector)
  unfolding adopt
  fallback client [] = pure (ok none)
  fallback client (c ∷ []) = adopt client c
  fallback client (c ∷ d ∷ cs) = pure (ok none)

  -- What the list by the selector gave.
  unfoldable pub pick : K.Client → List Connector → Io K D (Option Connector)
  unfolding fallback
  pick client [] = call (K.list_connectors client none) >>= λ all. fallback client all
  pick client (c ∷ cs) = pure (ok (some c))

  unfoldable pub find_connector : Text → Io K D (Option Connector)
  unfolding pick
  find_connector project_id = do
    client ← call (K.connect project_id)
    items ← call (K.list_connectors client (some (selector connector_selector_field addr.id)))
    pick client items

  abbrev new_connector : Connector
  new_connector = record {
    metadata = record {
      name = none;
      generate_name = some (codes "datum-connect-");
      annotations = none;
    };
    spec = record { connector_class_name = codes "datum-connect"; capabilities = none };
    status = none;
  }

  -- The status of a new connector, of which a failure is only logged.
  unfoldable pub announce : K.Client → Connector → Io K D Connector
  unfolding build_connection_details
  announce client connector = elim (build_connection_details addr) [
    | none ↦ pure (ok connector)
    | some details ↦
        attempt (call (K.patch_connector_status client (K.name_any connector.metadata) details))
        >>= λ _. pure (ok connector)
  ]

  unfoldable pub ensured : Text → Option Connector → Io K D Connector
  unfolding announce
  ensured project_id (some connector) = pure (ok connector)
  ensured project_id none = do
    client ← call (K.connect project_id)
    connector ← call (K.create_connector client new_connector)
    announce client connector

  unfoldable pub ensure_connector : Text → Io K D Connector
  unfolding find_connector ensured
  ensure_connector project_id = do found ← find_connector project_id; ensured project_id found
