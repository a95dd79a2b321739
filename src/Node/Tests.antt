-- ===== src/Node/Tests.antt =====
-- Runs of lib/src/node.rs on concrete input, and instances of its theorems.
use datum_connect.Base.{
  ℕ, ◌≡◌, refl, ◌↔◌, false, ◌||◌, none, [], ◌∷◌, ◌++◌, arith, option_eq, nat_eq, text_eq, any,
}
use datum_connect.Text.{Text, codes, print_uint}
use datum_connect.Request.{Authority, tunnel, absolute, allowed, forbidden}
use datum_connect.State.{
  ProxyState, State, set_proxy, remove_proxy, with_id, new_proxy_state, find_id,
}
use datum_connect.State.Table.{UniqueIds}
use datum_connect.Node.{
  strip_host_scheme, tcp_proxy_exists, authorize, parse_host_port_from_url, serves,
}
use datum_connect.Node.Url.{http, prefix, path, tail_text}
use datum_connect.Node.Authorize.{
  Permits, authorize-tunnel, authorize-absolute, serves_besides, tcp_proxy_exists-set_proxy,
  tcp_proxy_exists-remove_proxy,
}

abbrev web_proxy : ProxyState
web_proxy =
    new_proxy_state
      (with_id (codes "proxy-a") (record { host = codes "localhost"; port = 5173 }) none)

abbrev parked_proxy : ProxyState
parked_proxy = record {
  info = with_id (codes "proxy-b") (record { host = codes "localhost"; port = 22 }) none;
  enabled = false;
}

abbrev two_proxies : State
two_proxies = record { proxies = web_proxy ∷ parked_proxy ∷ [] }

two_proxies-UniqueIds : UniqueIds two_proxies.proxies
unfolding find_id text_eq
two_proxies-UniqueIds = (refl, (refl, tt))

abbrev target : Text → ℕ → Authority
target host port = record { host = host; port = port }

opened : authorize two_proxies (tunnel (target (codes "http://localhost") 5173)) ≡ allowed
unfolding authorize tcp_proxy_exists nat_eq text_eq
opened = refl

-- A disabled proxy lets nothing through.
parked : authorize two_proxies (tunnel (target (codes "localhost") 22)) ≡ forbidden
unfolding authorize tcp_proxy_exists nat_eq text_eq
parked = refl

no_scheme : parse_host_port_from_url (codes "ftp://localhost:21") ≡ none
unfolding parse_host_port_from_url nat_eq
no_scheme = refl

authorize-tunnel_example :
    (authorize two_proxies (tunnel (target (codes "localhost") 5173)) ≡ allowed)
    ↔ Permits two_proxies (strip_host_scheme (codes "localhost")) 5173
authorize-tunnel_example = authorize-tunnel two_proxies (target (codes "localhost") 5173)

authorize-absolute_example :
    (authorize two_proxies (
        absolute (
          prefix http
          ++ ((codes "localhost" ++ b':' ∷ print_uint 5173) ++ tail_text (path (codes "x")))))
      ≡ allowed)
    ↔ Permits two_proxies (strip_host_scheme (codes "localhost")) 5173
unfolding nat_eq
authorize-absolute_example =
    authorize-absolute two_proxies http (codes "localhost") 5173 (path (codes "x")) refl
      (omega arith)

tcp_proxy_exists-set_proxy_example :
    tcp_proxy_exists (set_proxy two_proxies parked_proxy) (codes "localhost") 22 ≡ (
      serves (strip_host_scheme (codes "localhost")) 22 parked_proxy
      || any
          (serves_besides (codes "proxy-b") (strip_host_scheme (codes "localhost")) 22)
          two_proxies.proxies)
tcp_proxy_exists-set_proxy_example =
    tcp_proxy_exists-set_proxy two_proxies parked_proxy (codes "localhost") 22 two_proxies-UniqueIds

tcp_proxy_exists-remove_proxy_example :
    tcp_proxy_exists (remove_proxy two_proxies (codes "proxy-a")).0 (codes "localhost") 5173
    ≡ any
        (serves_besides (codes "proxy-a") (strip_host_scheme (codes "localhost")) 5173)
        two_proxies.proxies
tcp_proxy_exists-remove_proxy_example =
    tcp_proxy_exists-remove_proxy two_proxies (codes "proxy-a") (codes "localhost") 5173
      two_proxies-UniqueIds
