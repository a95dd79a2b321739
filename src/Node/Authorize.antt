-- ===== src/Node/Authorize.antt =====
-- Which requests are let through: exactly those to an address that an enabled proxy offers.
use datum_connect.Base.{
  ℕ, ◌≤◌, ◌≡◌, refl, ◌↔◌, inl, inr, Bool, true, false, not, ◌&&◌, ◌||◌, none, List, [], ◌∷◌, ◌++◌,
  arith, ◌==◌, option_eq, nat_eq, text_eq, Bool-cases, u16_max, any,
}
use mathlib.Core.List.{Memᴰ}
use datum_connect.Text.{Text, contains_char, print_uint}
use datum_connect.Request.{Authority, tunnel, absolute, allowed}
use datum_connect.State.{
  State, ProxyState, service, id, find_id, set_entry, set_proxy, take_entry, remove_proxy,
}
use datum_connect.State.Table.{UniqueIds}
use datum_connect.Node.{strip_host_scheme, serves, tcp_proxy_exists, authorize}
use datum_connect.Node.Url.{Scheme, prefix, Tail, tail_text, parse_host_port_from_url-port}

-- An enabled proxy of the state offers the host and the port.
abbrev pub Permits : State → Text → ℕ → Type 0
Permits s host port =
    (p : ProxyState) × Memᴰ p s.proxies
    × (p.enabled ≡ true)
    × ((service p).host ≡ host)
    × ((service p).port ≡ port)

any-mem :
    (host : Text) (port : ℕ) (ps : List ProxyState)
    → any (serves host port) ps ≡ true
    → Permits (record { proxies = ps }) host port
any-mem host port [] h = cc
any-mem host port (p ∷ ps) h = elim (Bool-cases (serves host port p)) [
  | inl e ↦ (p, Memᴰ.head refl, ground arith, ground arith, ground arith)
  | inr e ↦
      let (q, m, on, same_host, same_port) = any-mem host port ps (ground arith) in
      (q, Memᴰ.tail m, on, same_host, same_port)
]

mem-any :
    (host : Text) (port : ℕ) {p : ProxyState} (ps : List ProxyState)
    → Memᴰ p ps
    → serves host port p ≡ true
    → any (serves host port) ps ≡ true
mem-any host port [] m h = elim m [ ]
mem-any host port (q ∷ ps) (Memᴰ.head e) h = ground arith
mem-any host port (q ∷ ps) (Memᴰ.tail m) h = ground (arith, mem-any host port ps m h)

-- A tunnel is let through exactly if an enabled proxy offers its target's host, less a scheme in
-- front of it, and port.
pub authorize-tunnel :
    (s : State) (target : Authority)
    → (authorize s (tunnel target) ≡ allowed)
      ↔ Permits s (strip_host_scheme target.host) target.port
unfolding authorize tcp_proxy_exists
authorize-tunnel s target = (
  λ h. any-mem _ target.port s.proxies (ground arith),
  λ (p, m, on, same_host, same_port).
      rw (mem-any (strip_host_scheme target.host) target.port s.proxies m (ground arith)),
)

-- An absolute URL with a port is let through exactly if an enabled proxy offers its host and port,
-- whatever path stands behind them.
pub authorize-absolute :
    (s : State) (c : Scheme) (host : Text) (port : ℕ) (t : Tail)
    → contains_char host b'/' ≡ false
    → port ≤ u16_max
    → (authorize s (absolute (prefix c ++ ((host ++ b':' ∷ print_uint port) ++ tail_text t)))
        ≡ allowed)
      ↔ Permits s (strip_host_scheme host) port
unfolding authorize
authorize-absolute s c host port t h fits =
    rw (parse_host_port_from_url-port c host port t h fits, authorize)
      (authorize-tunnel s (record { host = host; port = port }))

mem-set_entry : (p : ProxyState) (qs : List ProxyState) → Memᴰ p (set_entry p qs)
unfolding set_entry
mem-set_entry p [] = Memᴰ.head refl
mem-set_entry p (q ∷ qs) = elim (Bool-cases (id q == id p)) [
  | inl e ↦ rw e (Memᴰ.head refl)
  | inr e ↦ rw e (Memᴰ.tail (mem-set_entry p qs))
]

-- The address of an enabled proxy that was stored is open.
pub set_proxy-Permits :
    (s : State) (p : ProxyState)
    → p.enabled ≡ true
    → Permits (set_proxy s p) (service p).host (service p).port
unfolding set_proxy
set_proxy-Permits s p on = (p, mem-set_entry p s.proxies, on, refl, refl)

-- A tunnel to that address is let through.
pub set_proxy-authorize :
    (s : State) (p : ProxyState) (target : Authority)
    → p.enabled ≡ true
    → strip_host_scheme target.host ≡ (service p).host
    → target.port ≡ (service p).port
    → authorize (set_proxy s p) (tunnel target) ≡ allowed
set_proxy-authorize s p target on host port =
    (authorize-tunnel (set_proxy s p) target).1 (rw (host, port) (set_proxy-Permits s p on))

-- The proxies that are stored under another id.
abbrev pub serves_besides : Text → Text → ℕ → ProxyState → Bool
serves_besides i host port q = not (id q == i) && serves host port q

any_besides :
    (i host : Text) (port : ℕ) (qs : List ProxyState)
    → find_id i qs ≡ none
    → any (serves_besides i host port) qs ≡ any (serves host port) qs
unfolding find_id
any_besides i host port [] h = refl
any_besides i host port (q ∷ qs) h = ground (arith, any_besides i host port qs)

any-set_entry :
    (p : ProxyState) (host : Text) (port : ℕ) (qs : List ProxyState)
    → UniqueIds qs
    → any (serves host port) (set_entry p qs)
      ≡ (serves host port p || any (serves_besides (id p) host port) qs)
unfolding set_entry
any-set_entry p host port [] u = refl
any-set_entry p host port (q ∷ qs) u =
    ground (arith, any-set_entry p host port qs u.1, any_besides (id q) host port qs u.0)

any-take_entry :
    (i host : Text) (port : ℕ) (qs : List ProxyState)
    → UniqueIds qs
    → any (serves host port) (take_entry i qs).0 ≡ any (serves_besides i host port) qs
unfolding take_entry
any-take_entry i host port [] u = refl
any-take_entry i host port (q ∷ qs) u =
    ground (arith, any-take_entry i host port qs u.1, any_besides (id q) host port qs u.0)

-- Storing a proxy lets through what it offers if it is enabled, no longer lets through what only its
-- former entry offered, and changes nothing else: the other entries count as before.
pub tcp_proxy_exists-set_proxy :
    (s : State) (p : ProxyState) (host : Text) (port : ℕ)
    → UniqueIds s.proxies
    → tcp_proxy_exists (set_proxy s p) host port ≡ (
        serves (strip_host_scheme host) port p
        || any (serves_besides (id p) (strip_host_scheme host) port) s.proxies)
unfolding tcp_proxy_exists set_proxy
tcp_proxy_exists-set_proxy s p host port u = any-set_entry p _ port s.proxies u

-- After a removal a request is let through exactly if one of the other proxies offers its target.
pub tcp_proxy_exists-remove_proxy :
    (s : State) (i host : Text) (port : ℕ)
    → UniqueIds s.proxies
    → tcp_proxy_exists (remove_proxy s i).0 host port
      ≡ any (serves_besides i (strip_host_scheme host) port) s.proxies
unfolding tcp_proxy_exists remove_proxy
tcp_proxy_exists-remove_proxy s i host port u = any-take_entry i _ port s.proxies u
