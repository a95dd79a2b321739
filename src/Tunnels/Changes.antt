-- ===== src/Tunnels/Changes.antt =====
-- What the operations on a tunnel that is there do to the local node, also where they fail.
use datum_connect.Base.{
  String, ◌≡◌, refl, sym, ap, ◌∙◌, ◌≢◌, Bool, true, false, Option, some, arith, option_eq, nat_eq,
  text_eq, Result, ok, err,
}
use datum_connect.Text.{Text}
use datum_connect.Connection.{EndpointAddr}
use datum_connect.State.{TcpProxyData, ProxyState, service, proxy_by_id, from_host_port_str}
use datum_connect.State.Store.{Disk}
use datum_connect.Tunnels.{
  Url, ParsedTarget, TunnelSummary, normalize_endpoint, parse_target, strip_scheme,
}
use datum_connect.Tunnels.Io.{ControlPlane, World, Io, continue}
use datum_connect.Tunnels.Service.{
  create_project, update_objects, update_project, switch_objects, set_enabled_project,
}
use datum_connect.Tunnels.Quiet.{
  update_objects-Keeps, switch_objects-Keeps, update_objects-summary, switch_objects-summary,
}
use datum_connect.Tunnels.Local.{
  taken_over, taken_over-there, taken_over-others, finished, finished-node,
}
use datum_connect.Tunnels.Creation.{create_project-err}

-- The operations that change a tunnel.
pub data Operation : Type 0 where
  creation : Text → Text → Operation
  change : Text → Text → Text → Operation
  switch : Text → Bool → Operation

module _ (K : ControlPlane) (D : Disk) (parse_url : Text → Option Url) (addr : EndpointAddr)
    (publish_tickets : Bool) where
  switched :
      (project_id tunnel_id : Text) (enabled : Bool) (w w' : World K D) (t : TunnelSummary)
      → set_enabled_project K D parse_url addr publish_tickets project_id tunnel_id enabled w
        ≡ (w', ok t)
      → (t.id ≡ tunnel_id)
        × (t.enabled ≡ enabled)
        × (w'.node.inner ≡ taken_over parse_url publish_tickets t w.node.inner)
  unfolding set_enabled_project
  switched project_id tunnel_id enabled w w' t h =
      let m = switch_objects K D parse_url addr publish_tickets project_id tunnel_id enabled in
      let (same, inner, _) =
        finished-node K D parse_url addr publish_tickets m
          (switch_objects-Keeps K D addr parse_url publish_tickets project_id tunnel_id enabled) w
          w' (ok t) h in
      let (i, e) =
        switch_objects-summary K D addr parse_url publish_tickets project_id tunnel_id enabled w t
          same in
      (i, e, inner t refl)

  -- A switch that succeeds reports the tunnel in its new state. If tickets are not published and the
  -- endpoint is one that the node can offer, the node then has the tunnel's proxy with that endpoint
  -- and in that state; if they are published, the node is as before. The proxies of other ids stay in
  -- every case.
  pub set_enabled_project-node :
      (project_id tunnel_id : Text) (enabled : Bool) (w w' : World K D) (t : TunnelSummary)
      → set_enabled_project K D parse_url addr publish_tickets project_id tunnel_id enabled w
        ≡ (w', ok t)
      → (t.id ≡ tunnel_id)
        × (t.enabled ≡ enabled)
        × ((address : TcpProxyData)
            → publish_tickets ≡ false
            → from_host_port_str (strip_scheme parse_url t.endpoint) ≡ ok address
            → (p : ProxyState) × (proxy_by_id w'.node.inner tunnel_id ≡ some p)
              × (p.enabled ≡ enabled)
              × (service p ≡ address))
        × (publish_tickets ≡ true → w'.node.inner ≡ w.node.inner)
        × ((j : Text) → j ≢ tunnel_id → proxy_by_id w'.node.inner j ≡ proxy_by_id w.node.inner j)
  set_enabled_project-node project_id tunnel_id enabled w w' t h =
      let (i, e, q) = switched project_id tunnel_id enabled w w' t h in
      (
        i,
        e,
        λ address off offers.
            taken_over-there parse_url publish_tickets t w.node.inner w'.node.inner tunnel_id
              enabled address i e q off offers,
        λ on. ground (arith, q),
        λ j n. ground (arith, taken_over-others parse_url publish_tickets t w.node.inner j, q, i),
      )

  updated-finished :
      (project_id tunnel_id label endpoint : Text) (w : World K D) (target : ParsedTarget)
      → parse_target parse_url (normalize_endpoint endpoint) ≡ ok target
      → finished K D parse_url addr publish_tickets
          (update_objects K D parse_url addr publish_tickets project_id tunnel_id label
            (normalize_endpoint endpoint)
            target)
          w
        ≡ update_project K D parse_url addr publish_tickets project_id tunnel_id label endpoint w
  unfolding update_project
  updated-finished project_id tunnel_id label endpoint w target g =
      ap
        (λ r. continue w r (λ p. finished K D parse_url addr publish_tickets (
          update_objects K D parse_url addr publish_tickets project_id tunnel_id label
            (normalize_endpoint endpoint) p)))
        (sym g)

  -- After an update the local node offers the new endpoint under the same conditions.
  pub update_project-node :
      (project_id tunnel_id label endpoint : Text) (w w' : World K D) (t : TunnelSummary)
      → update_project K D parse_url addr publish_tickets project_id tunnel_id label endpoint w
        ≡ (w', ok t)
      → (t.id ≡ tunnel_id)
        × (t.endpoint ≡ normalize_endpoint endpoint)
        × (w'.node.inner ≡ taken_over parse_url publish_tickets t w.node.inner)
  unfolding update_project
  update_project-node project_id tunnel_id label endpoint w w' t h =
      go (parse_target parse_url (normalize_endpoint endpoint)) refl
    where
      go :
          (r : Result ParsedTarget)
          → parse_target parse_url (normalize_endpoint endpoint) ≡ r
          → (t.id ≡ tunnel_id)
            × (t.endpoint ≡ normalize_endpoint endpoint)
            × (w'.node.inner ≡ taken_over parse_url publish_tickets t w.node.inner)
      go (err e) g = ground arith
      go (ok target) g =
          let m =
            update_objects K D parse_url addr publish_tickets project_id tunnel_id label
              (normalize_endpoint endpoint) target in
          let (same, inner, _) =
            finished-node K D parse_url addr publish_tickets m
              (update_objects-Keeps K D addr parse_url publish_tickets project_id tunnel_id label
                (normalize_endpoint endpoint) target)
              w w' (ok t) (updated-finished project_id tunnel_id label endpoint w target g ∙ h) in
          let (i, e) =
            update_objects-summary K D addr parse_url publish_tickets project_id tunnel_id label
              (normalize_endpoint endpoint) target w t same in
          (i, e, inner t refl)

  update_project-err :
      (project_id tunnel_id label endpoint : Text) (w w' : World K D) (e : String)
      → update_project K D parse_url addr publish_tickets project_id tunnel_id label endpoint w
        ≡ (w', err e)
      → w'.node ≡ w.node
  unfolding update_project
  update_project-err project_id tunnel_id label endpoint w w' e h =
      go (parse_target parse_url (normalize_endpoint endpoint)) refl
    where
      go :
          (r : Result ParsedTarget)
          → parse_target parse_url (normalize_endpoint endpoint) ≡ r
          → w'.node ≡ w.node
      go (err f) g = ground arith
      go (ok target) g =
          (finished-node K D parse_url addr publish_tickets
              (update_objects K D parse_url addr publish_tickets project_id tunnel_id label
                (normalize_endpoint endpoint) target)
              (update_objects-Keeps K D addr parse_url publish_tickets project_id tunnel_id label
                (normalize_endpoint endpoint) target)
              w w' (err e) (updated-finished project_id tunnel_id label endpoint w target g ∙ h)).2
            e refl

  abbrev pub perform : Text → Operation → Io K D TunnelSummary
  perform project_id (creation label endpoint) =
      create_project K D parse_url addr publish_tickets project_id label endpoint
  perform project_id (change tunnel_id label endpoint) =
      update_project K D parse_url addr publish_tickets project_id tunnel_id label endpoint
  perform project_id (switch tunnel_id enabled) =
      set_enabled_project K D parse_url addr publish_tickets project_id tunnel_id enabled

  -- A creation, an update or a switch that fails leaves the local node as it was, whatever it did in
  -- the control plane.
  pub perform-err :
      (project_id : Text) (op : Operation) (w w' : World K D) (e : String)
      → perform project_id op w ≡ (w', err e)
      → w'.node ≡ w.node
  unfolding set_enabled_project
  perform-err project_id (creation label endpoint) w w' e h =
      create_project-err K D parse_url addr publish_tickets project_id label endpoint w w' e h
  perform-err project_id (change tunnel_id label endpoint) w w' e h =
      update_project-err project_id tunnel_id label endpoint w w' e h
  perform-err project_id (switch tunnel_id enabled) w w' e h =
      (finished-node K D parse_url addr publish_tickets
          (switch_objects K D parse_url addr publish_tickets project_id tunnel_id enabled)
          (switch_objects-Keeps K D addr parse_url publish_tickets project_id tunnel_id enabled) w
          w' (err e) h).2
        e refl
