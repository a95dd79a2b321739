-- ===== src/Tunnels/Creation.antt =====
-- What the creation of a tunnel does to the local node, and what it refuses.
use datum_connect.Base.{
  String, ◌≡◌, refl, sym, subst, inl, inr, Bool, true, Option, arith, option_eq, nat_eq, text_eq,
  Result, ok, err, Result-cases,
}
use datum_connect.Text.{Text}
use datum_connect.Connection.{EndpointAddr}
use datum_connect.Resources.{HttpProxy}
use datum_connect.State.{ProxyState, set_proxy, service}
use datum_connect.Request
use datum_connect.Request.{Authority, allowed}
use datum_connect.Node.{strip_host_scheme, authorize}
use datum_connect.Node.Authorize.{set_proxy-authorize}
use datum_connect.State.Store.{Disk}
use datum_connect.Tunnels.{
  Url, ParsedTarget, TunnelSummary, normalize_endpoint, parse_target, proxy_state_from_summary,
}
use datum_connect.Tunnels.Io.{ControlPlane, World}
use datum_connect.Tunnels.Service.{create_objects, create_project, update_project}
use datum_connect.Tunnels.Quiet.{create_objects-Keeps}
use datum_connect.Tunnels.Local.{store-node}

module _ (K : ControlPlane) (D : Disk) (parse_url : Text → Option Url) (addr : EndpointAddr)
    (publish_tickets : Bool) where
  summary-enabled :
      (tunnel_id endpoint label : Text) (enabled : Bool) (p : ProxyState)
      → proxy_state_from_summary parse_url tunnel_id endpoint label enabled ≡ ok p
      → p.enabled ≡ enabled
  unfolding proxy_state_from_summary
  summary-enabled tunnel_id endpoint label enabled p h = ground arith

  -- The proxy that is stored.
  create_project_stores :
      (project_id label endpoint : Text) (w w' : World K D) (t : TunnelSummary)
      → create_project K D parse_url addr publish_tickets project_id label endpoint w ≡ (w', ok t)
      → (p : ProxyState) × (proxy_state_from_summary parse_url t.id
            (normalize_endpoint endpoint)
            label
            true
          ≡ ok p)
        × (w'.node.inner ≡ set_proxy w.node.inner p)
        × (t.enabled ≡ true)
  unfolding create_project
  create_project_stores project_id label endpoint w w' t h =
      elim (Result-cases (parse_target parse_url (normalize_endpoint endpoint))) [
        | inr (e, f) ↦ ground arith
        | inl (target, f) ↦
            created target f
              (create_objects K D parse_url addr publish_tickets project_id label
                (normalize_endpoint endpoint) target w).1
              refl
      ]
    where
      created :
          (target : ParsedTarget)
          → parse_target parse_url (normalize_endpoint endpoint) ≡ ok target
          → (r : Result HttpProxy)
          → (create_objects K D parse_url addr publish_tickets project_id label
              (normalize_endpoint endpoint)
              target
              w).1
            ≡ r
          → (p : ProxyState) × (proxy_state_from_summary parse_url t.id
                (normalize_endpoint endpoint)
                label
                true
              ≡ ok p)
            × (w'.node.inner ≡ set_proxy w.node.inner p)
            × (t.enabled ≡ true)
      created target f (err e) g = ground arith
      created target f (ok proxy) g =
          elim (Result-cases (
            proxy_state_from_summary parse_url (K.name_any proxy.metadata)
              (normalize_endpoint endpoint) label true)) [
                | inr (e, i) ↦ ground arith
                | inl (p, i) ↦
                    let w1 =
                      (create_objects K D parse_url addr publish_tickets project_id label
                        (normalize_endpoint endpoint) target w).0 in
                    let (stored, (r, q)) = store-node K D parse_url addr publish_tickets p w1 in
                    let kept =
                      create_objects-Keeps K D addr parse_url publish_tickets project_id label
                        (normalize_endpoint endpoint) target w in
                    (p, ground arith, ground arith, ground arith)
              ]

  pub create_project-node :
      (project_id label endpoint : Text) (w w' : World K D) (t : TunnelSummary)
      → create_project K D parse_url addr publish_tickets project_id label endpoint w ≡ (w', ok t)
      → (p : ProxyState) × (proxy_state_from_summary parse_url t.id
            (normalize_endpoint endpoint)
            label
            true
          ≡ ok p)
        × (w'.node.inner ≡ set_proxy w.node.inner p)
        × (t.enabled ≡ true)
        × ((target : Authority)
            → strip_host_scheme target.host ≡ (service p).host
            → target.port ≡ (service p).port
            → authorize w'.node.inner (Request.tunnel target) ≡ allowed)
  create_project-node project_id label endpoint w w' t h =
      let (p, made, stored, on) = create_project_stores project_id label endpoint w w' t h in
      let on_p = summary-enabled t.id (normalize_endpoint endpoint) label true p made in
      (
        p,
        made,
        stored,
        on,
        λ target host port.
            subst (λ s. authorize s (Request.tunnel target) ≡ allowed) (sym stored)
              (set_proxy-authorize w.node.inner p target on_p host port),
      )

  -- An endpoint that is not a target is refused before the control plane is asked for anything.
  pub create_project_refuses :
      (project_id tunnel_id label endpoint : Text) (w : World K D) (e : String)
      → parse_target parse_url (normalize_endpoint endpoint) ≡ err e
      → (create_project K D parse_url addr publish_tickets project_id label endpoint w ≡ (w, err e))
        × (update_project K D parse_url addr publish_tickets project_id tunnel_id label endpoint w
            ≡ (w, err e))
  unfolding create_project update_project
  create_project_refuses project_id tunnel_id label endpoint w e h = (ground arith, ground arith)

  pub create_project-err :
      (project_id label endpoint : Text) (w w' : World K D) (e : String)
      → create_project K D parse_url addr publish_tickets project_id label endpoint w ≡ (w', err e)
      → w'.node ≡ w.node
  unfolding create_project
  create_project-err project_id label endpoint w w' e h =
      go (parse_target parse_url (normalize_endpoint endpoint)) refl
    where
      go :
          (r : Result ParsedTarget)
          → parse_target parse_url (normalize_endpoint endpoint) ≡ r
          → w'.node ≡ w.node
      go (err f) g = ground arith
      go (ok target) g =
          let kept =
            create_objects-Keeps K D addr parse_url publish_tickets project_id label
              (normalize_endpoint endpoint) target w in
          let result =
            (create_objects K D parse_url addr publish_tickets project_id label
              (normalize_endpoint endpoint) target w).1 in
          elim (Result-cases result) [
            | inr (f, q) ↦ ground arith
            | inl (proxy, q) ↦
                elim (Result-cases (
                  proxy_state_from_summary parse_url (K.name_any proxy.metadata)
                    (normalize_endpoint endpoint) label true)) [
                      | inr (f, i) ↦ ground arith
                      | inl (p, i) ↦ ground (
                        arith,
                        (store-node K D parse_url addr publish_tickets p
                            (create_objects K D parse_url addr publish_tickets project_id label
                              (normalize_endpoint endpoint) target w).0).1,
                      )
                    ]
          ]
