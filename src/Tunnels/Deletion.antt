-- ===== src/Tunnels/Deletion.antt =====
-- What the deletion of a tunnel does to the local node.
use datum_connect.Base.{
  ◌≡◌, refl, ap, ◌∙◌, ◌⊎◌, inl, inr, Bool, false, Option, none, some, arith, option_eq, nat_eq,
  text_eq, Result, ok, err, Result-cases,
}
use datum_connect.Text.{Text}
use datum_connect.Connection.{EndpointAddr}
use datum_connect.Resources.{Connector}
use datum_connect.State.{remove_proxy}
use datum_connect.State.Store.{Disk, StateWrapper, update_lem, remove_proxy_state}
use datum_connect.Tunnels.{Url, TunnelDeleteOutcome}
use datum_connect.Tunnels.Io.{ControlPlane, World}
use datum_connect.Tunnels.Connectors.{find_connector}
use datum_connect.Tunnels.Removal.{delete_objects, delete_project, delete_with}
use datum_connect.Tunnels.Quiet.{
  find_connector-Keeps, delete_objects-Keeps, release_connector-Keeps,
}

module _ (K : ControlPlane) (D : Disk) (parse_url : Text → Option Url) (addr : EndpointAddr)
    (publish_tickets : Bool) where
  removal-node :
      (tunnel_id : Text) (n : StateWrapper D)
      → (remove_proxy_state D n tunnel_id).0.inner ≡ (remove_proxy n.inner tunnel_id).0
  unfolding remove_proxy_state
  removal-node tunnel_id n = (update_lem D n (λ s. remove_proxy s tunnel_id)).0

  delete_with-node :
      (project_id tunnel_id : Text) (c : Connector) (w w' : World K D) (o : TunnelDeleteOutcome)
      → delete_with K D addr project_id tunnel_id c w ≡ (w', ok o)
      → w'.node.inner ≡ (remove_proxy w.node.inner tunnel_id).0
  unfolding delete_with
  delete_with-node project_id tunnel_id c w w' o h =
      let w1 : World K D = record w { cluster = (K.connect project_id w.cluster).0 } in
      elim (Result-cases (K.connect project_id w.cluster).1) [
        | inr (e, q) ↦ ground arith
        | inl (client, q) ↦
            let w2 : World K D = (delete_objects K D client tunnel_id w1).0 in
            let w3 : World K D = record w2 { node = (remove_proxy_state D w2.node tunnel_id).0 } in
            ground (
              arith,
              delete_objects-Keeps K D client tunnel_id w1,
              removal-node tunnel_id w2.node,
              release_connector-Keeps K D client (K.name_any c.metadata) w3,
            )
      ]

  -- A deleted tunnel is no longer offered by the local node, unless the node's connector was not found, when
  -- nothing at all is deleted.
  pub delete_project-node :
      (project_id tunnel_id : Text) (w w' : World K D) (o : TunnelDeleteOutcome)
      → delete_project K D addr project_id tunnel_id w ≡ (w', ok o)
      → (w'.node.inner ≡ (remove_proxy w.node.inner tunnel_id).0)
        ⊎ (((find_connector K D addr project_id w).1 ≡ ok none)
            × (w' ≡ (find_connector K D addr project_id w).0)
            × (w'.node ≡ w.node)
            × (o.connector_deleted ≡ false))
  unfolding delete_project
  delete_project-node project_id tunnel_id w w' o h =
      go (find_connector K D addr project_id w).1 refl
    where
      go :
          (r : Result (Option Connector))
          → (find_connector K D addr project_id w).1 ≡ r
          → (w'.node.inner ≡ (remove_proxy w.node.inner tunnel_id).0)
            ⊎ (((find_connector K D addr project_id w).1 ≡ ok none)
                × (w' ≡ (find_connector K D addr project_id w).0)
                × (w'.node ≡ w.node)
                × (o.connector_deleted ≡ false))
      go (err e) g = ground arith
      go (ok none) g = inr (
        g,
        ground arith,
        ground (arith, find_connector-Keeps K D addr project_id w),
        ground arith,
      )
      go (ok (some c)) g = inl (
          delete_with-node project_id tunnel_id c (find_connector K D addr project_id w).0 w' o
            (ground arith)
          ∙ ap (λ n. (remove_proxy n.inner tunnel_id).0)
              (find_connector-Keeps K D addr project_id w))
