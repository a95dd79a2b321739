-- ===== src/Connection.antt =====
-- The connection details that a node reports of itself: `ListenNodeDetailsProvider` of
-- lib/src/heartbeat.rs and `build_connection_details` of lib/src/tunnels.rs. The endpoint's address
-- comes from the network library (iroh) and is an argument.
use datum_connect.Base.{
  ℕ, ◌≡◌, ◌↔◌, Option, none, some, List, [], ◌∷◌, map, arith, option_eq, nat_eq, text_eq,
}
use datum_connect.Text.{Text}
use datum_connect.Resources.{ConnectorConnectionDetails, PublicKeyConnectorAddress, public_key, dns}

-- What is read of an endpoint: its id, its relays and its socket addresses, as an IP address in
-- print and a u16 port.
pub record EndpointAddr : Type 0 where
  pub id : Text
  pub relay_urls : List Text
  pub ip_addrs : List (Text × ℕ)

-- `urls.next()`
abbrev pub first {ℓ} : {A : Type ℓ} → List A → Option A
first [] = none
first (a ∷ as') = some a

abbrev connector_address : Text × ℕ → PublicKeyConnectorAddress
connector_address (ip, port) = record { address = ip; port = port }

details_of : EndpointAddr → Text → ConnectorConnectionDetails
details_of e home_relay = record {
  connection_type = public_key;
  public_key = some (record {
    id = e.id;
    discovery_mode = some dns;
    home_relay = home_relay;
    addresses = map connector_address e.ip_addrs;
  });
}

-- `ListenNodeDetailsProvider::connection_details`
unfoldable pub connection_details : EndpointAddr → Option Text → Option ConnectorConnectionDetails
unfolding details_of
connection_details e fallback_home_relay = elim (first e.relay_urls) [
  | some relay ↦ some (details_of e relay)
  | none ↦ elim fallback_home_relay [ none ↦ none | some relay ↦ some (details_of e relay) ]
]

-- `build_connection_details`
unfoldable pub build_connection_details : EndpointAddr → Option ConnectorConnectionDetails
unfolding details_of
build_connection_details e = elim (first e.relay_urls) [
  | none ↦ none
  | some relay ↦ some (details_of e relay)
]

-- The two agree wherever the tunnels have details at all, and the heartbeat has none only where the
-- endpoint knows no relay and no earlier one was recorded.
pub connection_details-build :
    (e : EndpointAddr) (fallback : Option Text)
    → ((d : ConnectorConnectionDetails)
        → build_connection_details e ≡ some d
        → connection_details e fallback ≡ some d)
      × ((connection_details e fallback ≡ none) ↔ ((e.relay_urls ≡ []) × (fallback ≡ none)))
unfolding connection_details build_connection_details
connection_details-build e fallback = (λ d h. ground arith, ground arith)
