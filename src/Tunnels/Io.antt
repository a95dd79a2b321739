-- ===== src/Tunnels/Io.antt =====
-- The effects of the tunnel service: calls of the control plane, and the state of the local node.
-- A call may change the plane in any way and may fail; what it returns is not restricted.
use datum_connect.Base.{◌≡◌, refl, ◌∙◌, Option, List, option_eq, nat_eq, text_eq, Result, ok, err}
use datum_connect.Text.{Text}
use datum_connect.Resources.{
  ObjectMeta, Connector, ConnectorConnectionDetails, ConnectorAdvertisement,
  ConnectorAdvertisementSpec, HttpProxy, HttpProxyRule,
}
use datum_connect.State.Store.{Disk, StateWrapper}

-- The patch of `update_project`: the label, the hostnames and the rules.
pub record HttpProxyPatch : Type 0 where
  pub label : Text
  pub hostnames : List Text
  pub rules : List HttpProxyRule

pub record ControlPlane : Type 1 where
  pub Cluster : Type 0
  pub Client : Type 0
  -- `project_control_plane_client`
  pub connect : Text → Cluster → Cluster × Result Client
  -- `Api::<HTTPProxy>`
  pub list_proxies : Client → Cluster → Cluster × Result (List HttpProxy)
  pub get_proxy : Client → Text → Cluster → Cluster × Result HttpProxy
  pub get_opt_proxy : Client → Text → Cluster → Cluster × Result (Option HttpProxy)
  pub create_proxy : Client → HttpProxy → Cluster → Cluster × Result HttpProxy
  pub patch_proxy : Client → Text → HttpProxyPatch → Cluster → Cluster × Result HttpProxy
  pub delete_proxy : Client → Text → Cluster → Cluster × Result (Unit {0})
  -- `Api::<ConnectorAdvertisement>`, lists by a field selector
  pub list_ads : Client → Text → Cluster → Cluster × Result (List ConnectorAdvertisement)
  pub get_opt_ad : Client → Text → Cluster → Cluster × Result (Option ConnectorAdvertisement)
  pub create_ad :
      Client → ConnectorAdvertisement → Cluster → Cluster × Result ConnectorAdvertisement
  pub patch_ad :
      Client → Text → ConnectorAdvertisementSpec → Cluster → Cluster × Result ConnectorAdvertisement
  pub delete_ad : Client → Text → Cluster → Cluster × Result (Unit {0})
  -- `Api::<Connector>`
  pub list_connectors : Client → Option Text → Cluster → Cluster × Result (List Connector)
  pub get_connector : Client → Text → Cluster → Cluster × Result Connector
  pub get_opt_connector : Client → Text → Cluster → Cluster × Result (Option Connector)
  pub create_connector : Client → Connector → Cluster → Cluster × Result Connector
  pub patch_connector_status :
      Client → Text → ConnectorConnectionDetails → Cluster → Cluster × Result (Unit {0})
  pub delete_connector : Client → Text → Cluster → Cluster × Result (Unit {0})
  -- `ResourceExt::name_any` of kube
  pub name_any : ObjectMeta → Text

module _ (K : ControlPlane) (D : Disk) where
  pub record World : Type 0 where
    pub cluster : K.Cluster
    pub node : StateWrapper D

  abbrev pub Io {ℓ} : Type ℓ → Type ℓ
  Io A = World → World × Result A

module _ {K : ControlPlane} {D : Disk} where
  -- A call of the control plane.
  abbrev pub call {ℓ} : {A : Type ℓ} → (K.Cluster → K.Cluster × Result A) → Io K D A
  call f w = let (cluster, r) = f w.cluster in (record w { cluster = cluster }, r)

  abbrev pub continue {ℓ κ} :
      {A : Type ℓ} {B : Type κ} → World K D → Result A → (A → Io K D B) → World K D × Result B
  continue w (err e) k = (w, err e)
  continue w (ok a) k = k a w

  infixl 5 ◌>>=◌ ◌>>◌
  -- `m?` and the rest
  abbrev pub ◌>>=◌ {ℓ κ} : {A : Type ℓ} {B : Type κ} → Io K D A → (A → Io K D B) → Io K D B
  ◌>>=◌ m k w = let (w', r) = m w in continue w' r k

  abbrev pub ◌>>◌ {ℓ κ} : {A : Type ℓ} {B : Type κ} → Io K D A → Io K D B → Io K D B
  m >> k = m >>= λ _. k

  -- A result, without an effect.
  abbrev pub pure {ℓ} : {A : Type ℓ} → Result A → Io K D A
  pure r w = (w, r)

  -- The outcome is a value, so that the code can look at it.
  abbrev pub attempt {ℓ} : {A : Type ℓ} → Io K D A → Io K D (Result A)
  attempt m w = let (w', r) = m w in (w', ok r)

  -- An operation of the local node.
  abbrev pub local : {A : Type 0} → (StateWrapper D → StateWrapper D × Result A) → Io K D A
  local f w = let (node, r) = f w.node in (record w { node = node }, r)

  -- The local node is left as it is.
  abbrev pub Keeps {ℓ} : {A : Type ℓ} → Io K D A → Type 0
  Keeps m = (w : World K D) → (m w).0.node ≡ w.node

  pub call-Keeps {ℓ} : {A : Type ℓ} (f : K.Cluster → K.Cluster × Result A) → Keeps (call f)
  call-Keeps f w = refl

  pub pure-Keeps {ℓ} : {A : Type ℓ} (r : Result A) → Keeps (pure r)
  pure-Keeps r w = refl

  pub attempt-Keeps {ℓ} : {A : Type ℓ} (m : Io K D A) → Keeps m → Keeps (attempt m)
  attempt-Keeps m h w = h w

  continue-node {ℓ κ} :
      {A : Type ℓ} {B : Type κ} (w : World K D) (r : Result A) (k : A → Io K D B)
      → ((a : A) → Keeps (k a))
      → (continue w r k).0.node ≡ w.node
  continue-node w (err e) k h = refl
  continue-node w (ok a) k h = h a w

  pub bind-Keeps {ℓ κ} :
      {A : Type ℓ} {B : Type κ} (m : Io K D A) (k : A → Io K D B)
      → Keeps m
      → ((a : A) → Keeps (k a))
      → Keeps (m >>= k)
  bind-Keeps m k h hk w = continue-node (m w).0 (m w).1 k hk ∙ h w
