-- ===== src/Tunnels/Quiet.antt =====
-- The calls of the control plane leave the local node as it is.
use datum_connect.Base.{
  ◌≡◌, refl, Bool, true, false, Option, none, some, List, [], ◌∷◌, arith, if◌then◌else◌, option_eq,
  nat_eq, text_eq, any, Result, ok,
}
use datum_connect.Text.{Text}
use datum_connect.Connection.{EndpointAddr}
use datum_connect.Resources.{Connector}
use datum_connect.State.Store.{Disk}
use datum_connect.Tunnels.{Url, ParsedTarget}
use datum_connect.Tunnels.Io.{
  ControlPlane, Io, call, ◌>>◌, pure, attempt, Keeps, call-Keeps, pure-Keeps, attempt-Keeps,
  bind-Keeps,
}
use datum_connect.Tunnels.Connectors.{
  adopt, fallback, pick, find_connector, ensured, ensure_connector,
}
use datum_connect.Tunnels.Service.{create_objects, update_objects, switch_objects}
use datum_connect.Tunnels.Removal.{
  uses, delete_objects, delete_ads, release_objects, release_connector, drop_connector,
}
use datum_connect.Tunnels.{TunnelSummary}
use datum_connect.Resources.{ConnectorAdvertisement}
use datum_connect.Tunnels.Io.{World}

ruleset keeps = (call-Keeps, pure-Keeps, attempt-Keeps, bind-Keeps)

module _ (K : ControlPlane) (D : Disk) (addr : EndpointAddr) where
  adopt-Keeps : (client : K.Client) (c : Connector) → Keeps (adopt K D addr client c)
  unfolding adopt
  adopt-Keeps client c w = ground arith

  fallback-Keeps : (client : K.Client) (cs : List Connector) → Keeps (fallback K D addr client cs)
  unfolding fallback
  fallback-Keeps client [] w = refl
  fallback-Keeps client (c ∷ []) w = adopt-Keeps client c w
  fallback-Keeps client (c ∷ d ∷ cs) w = refl

  pick-Keeps : (client : K.Client) (cs : List Connector) → Keeps (pick K D addr client cs)
  unfolding pick
  pick-Keeps client [] w =
      bind-Keeps (call (K.list_connectors client none)) (fallback K D addr client) (λ v. refl)
        (fallback-Keeps client) w
  pick-Keeps client (c ∷ cs) w = refl

  pub find_connector-Keeps : (project_id : Text) → Keeps (find_connector K D addr project_id)
  unfolding find_connector
  find_connector-Keeps project_id w = grind (arith, pick-Keeps)

  pub ensured-Keeps :
      (project_id : Text) (o : Option Connector) → Keeps (ensured K D addr project_id o)
  unfolding ensured
  ensured-Keeps project_id none w = ground arith
  ensured-Keeps project_id (some c) w = refl

  pub ensure_connector-Keeps : (project_id : Text) → Keeps (ensure_connector K D addr project_id)
  unfolding ensure_connector
  ensure_connector-Keeps project_id =
      bind-Keeps (find_connector K D addr project_id) (ensured K D addr project_id)
        (find_connector-Keeps project_id) (ensured-Keeps project_id)

  pub create_objects-Keeps :
      (parse_url : Text → Option Url) (tickets : Bool) (project_id label endpoint : Text)
      (t : ParsedTarget)
      → Keeps (create_objects K D parse_url addr tickets project_id label endpoint t)
  unfolding create_objects
  create_objects-Keeps parse_url tickets project_id label endpoint t w =
      ground (arith, ensure_connector-Keeps project_id w)

  pub update_objects-Keeps :
      (parse_url : Text → Option Url) (tickets : Bool) (project_id tunnel_id label endpoint : Text)
      (t : ParsedTarget)
      → Keeps (update_objects K D parse_url addr tickets project_id tunnel_id label endpoint t)
  unfolding update_objects
  update_objects-Keeps parse_url tickets project_id tunnel_id label endpoint t w =
      ground (arith, ensure_connector-Keeps project_id w)

  pub switch_objects-Keeps :
      (parse_url : Text → Option Url) (tickets : Bool) (project_id tunnel_id : Text)
      (enabled : Bool)
      → Keeps (switch_objects K D parse_url addr tickets project_id tunnel_id enabled)
  unfolding switch_objects
  switch_objects-Keeps parse_url tickets project_id tunnel_id true w =
      ground (arith, ensure_connector-Keeps project_id w)
  switch_objects-Keeps parse_url tickets project_id tunnel_id false w =
      ground (arith, ensure_connector-Keeps project_id w)

  pub update_objects-summary :
      (parse_url : Text → Option Url) (tickets : Bool) (project_id tunnel_id label endpoint : Text)
      (p : ParsedTarget) (w : World K D) (t : TunnelSummary)
      → (update_objects K D parse_url addr tickets project_id tunnel_id label endpoint p w).1 ≡ ok t
      → (t.id ≡ tunnel_id) × (t.endpoint ≡ endpoint)
  unfolding update_objects
  update_objects-summary parse_url tickets project_id tunnel_id label endpoint p w t h =
      ground arith

  pub switch_objects-summary :
      (parse_url : Text → Option Url) (tickets : Bool) (project_id tunnel_id : Text)
      (enabled : Bool) (w : World K D) (t : TunnelSummary)
      → (switch_objects K D parse_url addr tickets project_id tunnel_id enabled w).1 ≡ ok t
      → (t.id ≡ tunnel_id) × (t.enabled ≡ enabled)
  unfolding switch_objects
  switch_objects-summary parse_url tickets project_id tunnel_id true w t h = ground arith
  switch_objects-summary parse_url tickets project_id tunnel_id false w t h = ground arith

module _ (K : ControlPlane) (D : Disk) where
  pub delete_objects-Keeps :
      (client : K.Client) (tunnel_id : Text) → Keeps (delete_objects K D client tunnel_id)
  unfolding delete_objects
  delete_objects-Keeps client tunnel_id w = ground arith

  -- A call for a name that there may be, and then the rest.
  named-Keeps :
      (o : Option Text) (f : Text → K.Cluster → K.Cluster × Result (Unit {0}))
      (m : Io K D (Unit {0}))
      → Keeps m
      → Keeps (elim o [ none ↦ m | some name ↦ attempt (call (f name)) >> m ])
  named-Keeps none f m h w = h w
  named-Keeps (some name) f m h w = h _

  delete_ads-Keeps :
      (client : K.Client) (ads : List ConnectorAdvertisement) → Keeps (delete_ads K D client ads)
  unfolding delete_ads
  delete_ads-Keeps client [] w = refl
  delete_ads-Keeps client (ad ∷ ads) w =
      named-Keeps ad.metadata.name (K.delete_ad client) (delete_ads K D client ads)
        (delete_ads-Keeps client ads) w

  drop_connector-Keeps : (client : K.Client) (name : Text) → Keeps (drop_connector K D client name)
  unfolding drop_connector
  drop_connector-Keeps client name w = ground arith

  release_objects-Keeps :
      (client : K.Client) (name : Text) → Keeps (release_objects K D client name)
  unfolding release_objects
  release_objects-Keeps client name w =
      grind (arith, delete_ads-Keeps client, drop_connector-Keeps client name)

  pub release_connector-Keeps :
      (client : K.Client) (name : Text) → Keeps (release_connector K D client name)
  unfolding release_connector
  release_connector-Keeps client name =
      bind-Keeps (call (K.list_proxies client)) _ (λ v. refl)
        (λ remaining. either (any (uses name) remaining))
    where
      either : (b : Bool) → Keeps (if b then pure (ok false) else release_objects K D client name)
      either true v = refl
      either false v = release_objects-Keeps client name v
