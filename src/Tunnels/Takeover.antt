-- ===== src/Tunnels/Takeover.antt =====
-- What a listing of the tunnels does to the local node.
use datum_connect.Base.{
  ◌≡◌, refl, ap, ◌∙◌, inl, inr, Bool, Option, none, some, List, [], ◌∷◌, arith, option_eq, nat_eq,
  text_eq, Result, ok, err, Result-cases,
}
use datum_connect.Text.{Text}
use datum_connect.Connection.{EndpointAddr}
use datum_connect.Resources.{Connector, HttpProxy}
use datum_connect.State.{State}
use datum_connect.State.Store.{Disk}
use datum_connect.Tunnels.{Url, TunnelSummary}
use datum_connect.Tunnels.Io.{ControlPlane, World}
use datum_connect.Tunnels.Connectors.{find_connector}
use datum_connect.Tunnels.Service.{store_summary}
use datum_connect.Tunnels.{advertisement_connector_field}
use datum_connect.Tunnels.Connectors.{selector}
use datum_connect.Tunnels.Listing.{tunnels_of, store_all, list_project, listed}
use datum_connect.Tunnels.Quiet.{find_connector-Keeps}
use datum_connect.Tunnels.Local.{taken_over, store_summary-node}

-- The state after the tunnels are taken over, one after the other.
abbrev pub taken_all : (Text → Option Url) → Bool → List TunnelSummary → State → State
taken_all parse_url publish_tickets [] s = s
taken_all parse_url publish_tickets (t ∷ ts) s =
    taken_all parse_url publish_tickets ts (taken_over parse_url publish_tickets t s)

module _ (K : ControlPlane) (D : Disk) (parse_url : Text → Option Url) (addr : EndpointAddr)
    (publish_tickets : Bool) where
  store_all-node :
      (ts : List TunnelSummary) (w : World K D)
      → ((store_all K D parse_url addr publish_tickets ts w).0.node.inner
          ≡ taken_all parse_url publish_tickets ts w.node.inner)
        × ((store_all K D parse_url addr publish_tickets ts w).1 ≡ ok tt)
  unfolding store_all
  store_all-node [] w = (refl, refl)
  store_all-node (t ∷ ts) w =
      let w1 = (store_summary K D parse_url addr publish_tickets t w).0 in
      ground
        (arith, store_summary-node K D parse_url addr publish_tickets t w, store_all-node ts w1)

  listed-node :
      (project_id : Text) (c : Connector) (w w' : World K D) (ts : List TunnelSummary)
      → listed K D parse_url addr publish_tickets project_id c w ≡ (w', ok ts)
      → w'.node.inner ≡ taken_all parse_url publish_tickets ts w.node.inner
  unfolding listed
  listed-node project_id c w w' ts h = elim (Result-cases (K.connect project_id w.cluster).1) [
    | inr (e, q) ↦ ground arith
    | inl (client, q) ↦
        go client q (K.list_proxies client (K.connect project_id w.cluster).0).1 refl
  ]
    where
      go :
          (client : K.Client)
          → (K.connect project_id w.cluster).1 ≡ ok client
          → (r : Result (List HttpProxy))
          → (K.list_proxies client (K.connect project_id w.cluster).0).1 ≡ r
          → w'.node.inner ≡ taken_all parse_url publish_tickets ts w.node.inner
      go client q (err e) f = ground arith
      go client q (ok proxies) f =
          let c2 = (K.list_proxies client (K.connect project_id w.cluster).0).0 in
          let answer =
            K.list_ads client (selector advertisement_connector_field (K.name_any c.metadata)) c2 in
          elim (Result-cases answer.1) [
            | inr (e, g) ↦ ground arith
            | inl (ads, g) ↦ ground (
              arith,
              store_all-node (tunnels_of (K.name_any c.metadata) ads proxies)
                  (record w { cluster = answer.0 }),
            )
          ]

  -- A listing that succeeds leaves the local node with the tunnels that it returns taken over in turn:
  -- those whose endpoint the node can offer, and none if tickets are published.
  pub list_project-node :
      (project_id : Text) (w w' : World K D) (ts : List TunnelSummary)
      → list_project K D parse_url addr publish_tickets project_id w ≡ (w', ok ts)
      → w'.node.inner ≡ taken_all parse_url publish_tickets ts w.node.inner
  unfolding list_project
  list_project-node project_id w w' ts h =
      let kept = find_connector-Keeps K D addr project_id w in
      elim (Result-cases (find_connector K D addr project_id w).1) [
        | inr (e, q) ↦ ground arith
        | inl (none, q) ↦ ground arith
        | inl (some c, q) ↦
            listed-node project_id c (find_connector K D addr project_id w).0 w' ts (ground arith)
            ∙ ap (λ n. taken_all parse_url publish_tickets ts n.inner) kept
      ]
