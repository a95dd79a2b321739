-- ===== src/Policy.antt =====
-- lib/src/auth.rs: the network policy, an `AuthHandler` that is read from auth.yml.
-- `none` is the panic of `todo!()`. The remote's id is not looked at.
pub mod Ports
mod Tests
use datum_connect.Base.{
  ℕ, zero, suc, ◌+◌, ◌-◌, ◌*◌, ◌/◌, ◌%◌, ◌^◌, ◌≤◌, ◌<◌, min, max, String, ◌≡◌, refl, sym, ap, subst,
  ◌∙◌, ◌≢◌, ◌↔◌, ◌⊎◌, inl, inr, Bool, true, false, not, ◌&&◌, ◌||◌, Option, none, some, List, [],
  ◌∷◌, ◌++◌, map, arith, if◌then◌else◌, Eq, ◌==◌, ==_refl, eq_of_==, option_eq, nat_eq, text_eq,
  Bool-cases, ltb, leb, u16_max, u32_max, u64_mod, ltb→lt, lt→ltb, leb→le, le→leb, tests, length,
  any, all, find, keep, All, Option-cases, length-append, find-test, find-eq-none, Result, ok, err,
  ◌>>=◌, ◌>>◌, context, std_context, to_option, is_ok, Result-cases,
}
use datum_connect.Base.Int.{ℤ}
use datum_connect.Text.{Text, codes}
use datum_connect.Request.{
  Authority, HttpProxyRequestKind, tunnel, absolute, Verdict, allowed, forbidden,
}

pub data Protocol : Type 0 where
  tcp udp sctp : Protocol

pub data IntOrString : Type 0 where
  int : ℕ → IntOrString
  string : Text → IntOrString

pub record NetworkPolicyPort : Type 0 where
  pub protocol : Option Protocol
  pub port : Option IntOrString
  pub end_port : Option ℤ

-- `NetworkPolicyPort::default`
abbrev pub default_port : NetworkPolicyPort
default_port = record { protocol = some tcp; port = some (string (codes "*")); end_port = none }

pub record IpBlock : Type 0 where
  pub cidr : Text
  pub except : Option (List Text)

pub record NetworkPolicyPeer : Type 0 where
  pub ip_block : Option IpBlock
  pub endpoint : Option Text

pub record Auth : Type 0 where
  pub ports : Option (List NetworkPolicyPort)
  pub from : Option (List NetworkPolicyPeer)

-- `Auth::default`
abbrev pub default_auth : Auth
default_auth = record { ports = none; from = none }

-- `NetworkPolicyPort::allows`
pub allows : NetworkPolicyPort → ℕ → Option Bool
allows policy port = elim policy.port [
  | none ↦ some true
  | some pos ↦ elim pos [ string _ ↦ none | int i ↦ some (i == port) ]
]

-- `NetworkPolicyPeer::allows`
abbrev pub allows_id : Text → NetworkPolicyPeer → Bool
allows_id id peer = true

-- `ports.iter().any(…)`, which stops at the first policy that allows the port, or at a panic.
pub any_allows : List NetworkPolicyPort → ℕ → Option Bool
unfolding allows
any_allows [] port = some false
any_allows (policy ∷ policies) port =
    let rest = any_allows policies port in
    elim (allows policy port) [ none ↦ none | some here ↦ if here then some true else rest ]

pub allows_port : Auth → ℕ → Option Bool
unfolding any_allows
allows_port a port = elim a.ports [ none ↦ some false | some ports ↦ any_allows ports port ]

pub allows_endpoint : Auth → Text → Bool
allows_endpoint a id = elim a.from [ none ↦ false | some peers ↦ any (allows_id id) peers ]

pub allows_req : Auth → Text → HttpProxyRequestKind → Option Bool
unfolding allows_port allows_endpoint
allows_req a remote_id (tunnel target) =
    if allows_endpoint a remote_id then allows_port a target.port else some false
allows_req a remote_id (absolute _) = if allows_endpoint a remote_id then some false else some false

-- `AuthHandler::authorize`
pub authorize : Auth → Text → HttpProxyRequestKind → Option Verdict
unfolding allows_req
authorize a remote_id kind = elim (allows_req a remote_id kind) [
  | none ↦ none
  | some res ↦ some (if res then allowed else forbidden)
]
