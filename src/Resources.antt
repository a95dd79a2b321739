-- ===== src/Resources.antt =====
-- lib/src/datum_apis: the objects of the control plane, with the parts that the program writes or
-- reads. Left out are the route filters, which it never sets and never looks at, the addresses and
-- the capabilities in a status, and the fields of a condition other than its type and its status.
use datum_connect.Base.{ℕ, Bool, Option, List, option_eq, nat_eq, text_eq}
use datum_connect.Base.Int.{ℤ}
use datum_connect.Text.{Text, codes}

-- The parts of `ObjectMeta` (k8s_openapi) that are used.
pub record ObjectMeta : Type 0 where
  pub name : Option Text
  pub generate_name : Option Text
  pub annotations : Option (List (Text × Text))

-- `Condition` (k8s_openapi)
pub record Condition : Type 0 where
  pub type_ : Text
  pub status : Text

pub record LocalConnectorReference : Type 0 where
  pub name : Text

pub data ConnectorCapabilityType : Type 0 where
  connect_tcp : ConnectorCapabilityType

pub record ConnectorCapability : Type 0 where
  pub capability_type : ConnectorCapabilityType
  -- `connect_tcp.common.disabled`
  pub connect_tcp : Option (Option Bool)

pub record ConnectorSpec : Type 0 where
  pub connector_class_name : Text
  pub capabilities : Option (List ConnectorCapability)

pub data PublicKeyDiscoveryMode : Type 0 where
  dns : PublicKeyDiscoveryMode

-- The port is an i32; the program only puts u16 values there.
pub record PublicKeyConnectorAddress : Type 0 where
  pub address : Text
  pub port : ℕ

pub record ConnectorConnectionDetailsPublicKey : Type 0 where
  pub id : Text
  pub discovery_mode : Option PublicKeyDiscoveryMode
  pub home_relay : Text
  pub addresses : List PublicKeyConnectorAddress

pub data ConnectorConnectionType : Type 0 where
  public_key : ConnectorConnectionType

pub record ConnectorConnectionDetails : Type 0 where
  pub connection_type : ConnectorConnectionType
  pub public_key : Option ConnectorConnectionDetailsPublicKey

-- `LocalObjectReference` (k8s_openapi)
pub record LocalObjectReference : Type 0 where
  pub name : Text

pub record ConnectorStatus : Type 0 where
  pub connection_details : Option ConnectorConnectionDetails
  pub lease_ref : Option LocalObjectReference

pub record Connector : Type 0 where
  pub metadata : ObjectMeta
  pub spec : ConnectorSpec
  pub status : Option ConnectorStatus

-- connector_advertisement.rs
pub record Layer4ServiceAddress : Type 0 where
  pub value : Text

pub data Protocol : Type 0 where
  tcp udp : Protocol

pub record Layer4ServicePort : Type 0 where
  pub name : Text
  pub port : ℕ
  pub protocol : Protocol

pub record ConnectorAdvertisementLayer4Service : Type 0 where
  pub address : Layer4ServiceAddress
  pub ports : List Layer4ServicePort

pub record ConnectorAdvertisementLayer4 : Type 0 where
  pub name : Text
  pub services : List ConnectorAdvertisementLayer4Service

pub record ConnectorAdvertisementSpec : Type 0 where
  pub connector_ref : LocalConnectorReference
  pub layer4 : Option (List ConnectorAdvertisementLayer4)

pub record ConnectorAdvertisement : Type 0 where
  pub metadata : ObjectMeta
  pub spec : ConnectorAdvertisementSpec

-- http_proxy.rs
pub record ConnectorReference : Type 0 where
  pub name : Text

pub record HttpProxyRuleBackend : Type 0 where
  pub endpoint : Text
  pub connector : Option ConnectorReference

pub data PathMatchType : Type 0 where
  path_prefix : PathMatchType

-- `HTTPRouteMatch` (gateway_api), of which the path is set.
pub record HttpRouteMatch : Type 0 where
  pub path : Option (Option PathMatchType × Option Text)

pub record HttpProxyRule : Type 0 where
  pub name : Option Text
  pub matches : List HttpRouteMatch
  pub backends : Option (List HttpProxyRuleBackend)

pub record HttpProxySpec : Type 0 where
  pub hostnames : Option (List Text)
  pub rules : List HttpProxyRule

pub record HttpProxyStatus : Type 0 where
  pub hostnames : Option (List Text)
  pub conditions : Option (List Condition)

pub record HttpProxy : Type 0 where
  pub metadata : ObjectMeta
  pub spec : HttpProxySpec
  pub status : Option HttpProxyStatus

abbrev pub condition_accepted : Text
condition_accepted = codes "Accepted"

abbrev pub condition_programmed : Text
condition_programmed = codes "Programmed"

-- lease.rs: `Lease` (k8s_openapi), of which the duration is read.
pub record LeaseSpec : Type 0 where
  pub lease_duration_seconds : Option ℤ

pub record Lease : Type 0 where
  pub spec : Option LeaseSpec
