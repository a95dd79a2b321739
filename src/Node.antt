-- ===== src/Node.antt =====
-- lib/src/node.rs: which requests of a remote peer a listening node lets through.
-- The state that is read is one snapshot, `self.get()`.
pub mod Authorize
pub mod Collection
pub mod Endpoint
pub mod Start
pub mod Url
mod Tests
use datum_connect.Base.{
  ℕ, zero, suc, ◌+◌, ◌-◌, ◌*◌, ◌/◌, ◌%◌, ◌^◌, ◌≤◌, ◌<◌, min, max, String, ◌≡◌, refl, sym, ap, subst,
  ◌∙◌, ◌≢◌, ◌↔◌, ◌⊎◌, inl, inr, Bool, true, false, not, ◌&&◌, ◌||◌, Option, none, some, List, [],
  ◌∷◌, ◌++◌, map, arith, if◌then◌else◌, Eq, ◌==◌, ==_refl, eq_of_==, option_eq, nat_eq, text_eq,
  Bool-cases, ltb, leb, u16_max, u32_max, u64_mod, ltb→lt, lt→ltb, leb→le, le→leb, tests, length,
  any, all, find, keep, All, Option-cases, length-append, find-test, find-eq-none, Result, ok, err,
  ◌>>=◌, ◌>>◌, context, std_context, to_option, is_ok,
}
use datum_connect.Text.{
  Text, codes, strip_prefix, starts_with, split_first, rsplit_once, parse_uint,
}
use datum_connect.Request.{
  Authority, HttpProxyRequestKind, tunnel, absolute, Verdict, allowed, forbidden,
}
use datum_connect.State.{State, ProxyState, service}

abbrev pub http_scheme : Text
http_scheme = codes "http://"

abbrev pub https_scheme : Text
https_scheme = codes "https://"

-- `a.or_else(|| b)`
abbrev pub or_else {ℓ} : {A : Type ℓ} → Option A → Option A → Option A
or_else none o = o
or_else (some a) o = some a

abbrev pub unwrap_or {ℓ} : {A : Type ℓ} → Option A → A → A
unwrap_or none b = b
unwrap_or (some a) b = a

unfoldable pub strip_host_scheme : Text → Text
strip_host_scheme host =
    unwrap_or (or_else (strip_prefix host http_scheme) (strip_prefix host https_scheme)) host

-- The closure of `tcp_proxy_exists`.
abbrev pub serves : Text → ℕ → ProxyState → Bool
serves host port a = a.enabled && ((service a).host == host && (service a).port == port)

unfoldable pub tcp_proxy_exists : State → Text → ℕ → Bool
unfolding strip_host_scheme
tcp_proxy_exists s host port = any (serves (strip_host_scheme host) port) s.proxies

default_port : Text → ℕ
default_port url = if starts_with url https_scheme then 443 else 80

-- The part of `parse_host_port_from_url` behind the scheme.
authority_host_port : Text → Text → Option (Text × ℕ)
unfolding default_port
authority_host_port url authority = elim (rsplit_once authority b':') [
  | some (host, port_str) ↦ elim (parse_uint u16_max port_str) [
    | none ↦ none
    | some port ↦ some (host, port)
  ]
  | none ↦ some (authority, default_port url)
]

unfoldable pub parse_host_port_from_url : Text → Option (Text × ℕ)
unfolding authority_host_port
parse_host_port_from_url url =
    elim (or_else (strip_prefix url http_scheme) (strip_prefix url https_scheme)) [
      | none ↦ none
      | some without_scheme ↦ authority_host_port url (split_first without_scheme b'/')
    ]

verdict : Bool → Verdict
verdict true = allowed
verdict false = forbidden

-- `AuthHandler::authorize` of `StateWrapper`; the remote's id is not looked at.
unfoldable pub authorize : State → HttpProxyRequestKind → Verdict
unfolding verdict
authorize s (tunnel target) = verdict (tcp_proxy_exists s target.host target.port)
authorize s (absolute target) = elim (parse_host_port_from_url target) [
  | none ↦ forbidden
  | some (host, port) ↦ verdict (tcp_proxy_exists s host port)
]
