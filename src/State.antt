-- ===== src/State.antt =====
-- lib/src/state.rs: the proxies that a node offers, and the store that keeps them.
-- A port is a u16. The random characters of a new id are an argument.
pub mod Table
pub mod Address
pub mod Store
pub mod Names
mod Tests
use datum_connect.Base.{
  ℕ, zero, suc, ◌+◌, ◌≡◌, refl, Bool, true, false, ◌&&◌, ◌||◌, Option, none, some, List, [], ◌∷◌,
  ◌++◌, Result, ok, err, ◌>>=◌, context, leb, ◌==◌, text_eq, nat_eq, if◌then◌else◌, u16_max,
}
use datum_connect.Text.{Text, codes, rsplit_once, parse_uint, print_uint}

pub record TcpProxyData : Type 0 where
  pub host : Text
  pub port : ℕ

-- The field `tcp_data` is `data` in the source.
pub record Advertisment : Type 0 where
  pub resource_id : Text
  pub label : Option Text
  pub tcp_data : TcpProxyData

pub record ProxyState : Type 0 where
  pub info : Advertisment
  pub enabled : Bool

pub record State : Type 0 where
  pub proxies : List ProxyState

-- `ProxyState::id`
abbrev pub id : ProxyState → Text
id p = p.info.resource_id

-- `Advertisment::service`
abbrev pub service : ProxyState → TcpProxyData
service p = p.info.tcp_data

-- `State::default`
abbrev pub default_state : State
default_state = record { proxies = [] }

-- The first entry with the id is replaced; without one the proxy goes to the end.
unfoldable pub set_entry : ProxyState → List ProxyState → List ProxyState
set_entry p [] = p ∷ []
set_entry p (q ∷ qs) = if id q == id p then p ∷ qs else q ∷ set_entry p qs

unfoldable pub set_proxy : State → ProxyState → State
unfolding set_entry
set_proxy s p = record { proxies = set_entry p s.proxies }

-- The first entry with the id, and the list without it.
unfoldable pub take_entry : Text → List ProxyState → List ProxyState × Option ProxyState
take_entry i [] = ([], none)
take_entry i (q ∷ qs) =
    let rest = take_entry i qs in if id q == i then (qs, some q) else (q ∷ rest.0, rest.1)

unfoldable pub remove_proxy : State → Text → State × Option ProxyState
unfolding take_entry
remove_proxy s i =
    let (rest, removed) = take_entry i s.proxies in (record { proxies = rest }, removed)

-- `ListenNode::proxy_by_id` (node.rs)
unfoldable pub find_id : Text → List ProxyState → Option ProxyState
find_id i [] = none
find_id i (q ∷ qs) = if id q == i then some q else find_id i qs

abbrev pub proxy_by_id : State → Text → Option ProxyState
proxy_by_id s i = find_id i s.proxies

-- `ProxyState::new`
abbrev pub new_proxy_state : Advertisment → ProxyState
new_proxy_state info = record { info = info; enabled = true }

-- `Advertisment::with_id`
abbrev pub with_id : Text → TcpProxyData → Option Text → Advertisment
with_id i d label = record { resource_id = i; label = label; tcp_data = d }

-- `TcpProxyData::parse_host_port`
unfoldable pub parse_host_port : Text → Result (Text × ℕ)
parse_host_port s = do
  (host, port_str) ← context (rsplit_once s b':') "missing port"
  port ← context (parse_uint u16_max port_str) "invalid port"
  ok (host, port)

-- `TcpProxyData::from_host_port_str`
unfoldable pub from_host_port_str : Text → Result TcpProxyData
unfolding parse_host_port
from_host_port_str s = do (host, port) ← parse_host_port s; ok (record { host = host; port = port })

-- `TcpProxyData::address`
unfoldable pub address : TcpProxyData → Text
address d = d.host ++ b':' ∷ print_uint d.port
