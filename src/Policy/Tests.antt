-- ===== src/Policy/Tests.antt =====
-- Runs of lib/src/auth.rs on concrete input (lib/tests/auth), and instances of its theorems.
use datum_connect.Base.{◌≡◌, refl, inl, inr, none, some, [], ◌∷◌, option_eq, nat_eq, text_eq}
use datum_connect.Text.{codes}
use datum_connect.Request.{Authority, tunnel, allowed, forbidden}
use datum_connect.Policy.{int, NetworkPolicyPort, NetworkPolicyPeer, Auth, default_port, authorize}
use datum_connect.Policy.Ports.{authorize-denied}

abbrev example_443 : Authority
example_443 = record { host = codes "example.com"; port = 443 }

abbrev port_443 : NetworkPolicyPort
port_443 = record { protocol = none; port = some (int 443); end_port = none }

abbrev anyone : NetworkPolicyPeer
anyone = record { ip_block = none; endpoint = none }

-- The policy of 01_tcp_443.config.yml, which lists no peer.
abbrev tcp_443 : Auth
tcp_443 = record { ports = some (port_443 ∷ []); from = none }

abbrev open_443 : Auth
open_443 = record { ports = some (port_443 ∷ []); from = some (anyone ∷ []) }

fixture_denied : authorize tcp_443 [] (tunnel example_443) ≡ some forbidden
fixture_denied = authorize-denied tcp_443 [] (tunnel example_443) (inr (inr (inl refl)))

open_allowed : authorize open_443 [] (tunnel example_443) ≡ some allowed
unfolding authorize nat_eq
open_allowed = refl

-- The default entry of a port list panics.
named_panics :
    authorize
      (record { ports = some (default_port ∷ []); from = some (anyone ∷ []) })
      []
      (tunnel example_443)
    ≡ none
unfolding authorize
named_panics = refl
