-- ===== src/Policy/Ports.antt =====
-- What the network policy lets through.
use datum_connect.Base.{
  ℕ, ◌≡◌, refl, subst, ◌≢◌, ◌↔◌, ◌⊎◌, inl, inr, Bool, true, false, ◌||◌, Option, none, some, List,
  [], ◌∷◌, arith, ◌==◌, option_eq, nat_eq, text_eq, All, Option-cases,
}
use mathlib.Core.List.{Memᴰ}
use datum_connect.Text.{Text}
use datum_connect.Request.{
  Authority, HttpProxyRequestKind, tunnel, absolute, Verdict, allowed, forbidden,
}
use datum_connect.Policy.{
  IntOrString, int, string, NetworkPolicyPort, NetworkPolicyPeer, Auth, allows, any_allows,
  allows_port, allows_endpoint, authorize,
}

-- The policy has no named port.
abbrev pub IsNumeric : NetworkPolicyPort → Type 0
IsNumeric p = (s : Text) → p.port ≢ some (string s)

-- The policy restricts no port, or names this one.
abbrev pub Opens : ℕ → NetworkPolicyPort → Type 0
Opens port p = (p.port ≡ none) ⊎ (p.port ≡ some (int port))

allows-Opens :
    (port : ℕ) (p : NetworkPolicyPort)
    → IsNumeric p
    → (b : Bool) × (allows p port ≡ some b) × ((b ≡ true) ↔ Opens port p)
unfolding allows
allows-Opens port p h = go p.port refl
  where
    go :
        (o : Option IntOrString)
        → p.port ≡ o
        → (b : Bool) × (allows p port ≡ some b) × ((b ≡ true) ↔ Opens port p)
    go none e = (true, ground arith, ground arith)
    go (some (string s)) e = absurd (h s e)
    go (some (int i)) e = (i == port, ground arith, ground arith)

any_allows-Opens :
    (port : ℕ) (ps : List NetworkPolicyPort)
    → All IsNumeric ps
    → (b : Bool) × (any_allows ps port ≡ some b)
      × ((b ≡ true) ↔ ((p : NetworkPolicyPort) × Memᴰ p ps × Opens port p))
unfolding any_allows
any_allows-Opens port [] h = (false, refl, (λ e. cc, λ (p, m, o). elim m [ ]))
any_allows-Opens port (p ∷ ps) h =
    let (here, he, hi) = allows-Opens port p h.0 in
    let (later, le, li) = any_allows-Opens port ps h.1 in
    (here || later, ground arith, both here later hi li)
  where
    Opener : List NetworkPolicyPort → Type 0
    Opener qs = (q : NetworkPolicyPort) × Memᴰ q qs × Opens port q

    either :
        {here later : Bool}
        → ((here ≡ true) ↔ Opens port p)
        → ((later ≡ true) ↔ Opener ps)
        → Opener (p ∷ ps)
        → (here || later) ≡ true
    either hi li (q, Memᴰ.head e, o) = rw (hi.1 (subst (Opens port) e o))
    either hi li (q, Memᴰ.tail m, o) = ground (arith, li.1 (q, m, o))

    both :
        (here later : Bool)
        → ((here ≡ true) ↔ Opens port p)
        → ((later ≡ true) ↔ Opener ps)
        → ((here || later) ≡ true) ↔ Opener (p ∷ ps)
    both true later hi li = (λ e. (p, Memᴰ.head refl, hi.0 refl), λ o. refl)
    both false later hi li = (λ e. let (q, m, o) = li.0 e in (q, Memᴰ.tail m, o), either hi li)

-- Some port policy of the list opens the port.
abbrev pub OpensPort : Auth → ℕ → Type 0
OpensPort a port =
    (ps : List NetworkPolicyPort) × (a.ports ≡ some ps)
    × ((p : NetworkPolicyPort) × Memᴰ p ps × Opens port p)

-- The policy names some peer; which one does not matter.
abbrev pub NamesPeer : Auth → Type 0
NamesPeer a = (peers : List NetworkPolicyPeer) × (a.from ≡ some peers) × (peers ≢ [])

allows_port-OpensPort :
    (a : Auth) (port : ℕ)
    → ((ps : List NetworkPolicyPort) → a.ports ≡ some ps → All IsNumeric ps)
    → (b : Bool) × (allows_port a port ≡ some b) × ((b ≡ true) ↔ OpensPort a port)
unfolding allows_port
allows_port-OpensPort a port h = elim (Option-cases a.ports) [
  | inl e ↦ (false, rw (e, allows_port), (λ f. cc, λ (ps, f, o). cc))
  | inr (ps, e) ↦
      let (b, eb, iff) = any_allows-Opens port ps (h ps e) in
      let same : (qs : List NetworkPolicyPort) → a.ports ≡ some qs → qs ≡ ps =
        λ qs f. ground arith in
      (
        b,
        rw (e, allows_port) eb,
        (λ f. (ps, e, iff.0 f), λ (qs, f, o). iff.1 (o.0, subst (Memᴰ o.0) (same qs f) o.1, o.2)),
      )
]

allows_endpoint-NamesPeer : (a : Auth) (id : Text) → (allows_endpoint a id ≡ true) ↔ NamesPeer a
unfolding allows_endpoint
allows_endpoint-NamesPeer a id = go a.from refl
  where
    go :
        (o : Option (List NetworkPolicyPeer))
        → a.from ≡ o
        → (allows_endpoint a id ≡ true) ↔ NamesPeer a
    go none e = (λ h. ground arith, λ (ps, f, n). ground arith)
    go (some []) e = (λ h. ground arith, λ (ps, f, n). ground arith)
    go (some (p ∷ ps)) e = (λ h. (p ∷ ps, e, λ f. cc), λ _. ground arith)

-- Without named ports the policy always decides, and it authorizes a tunnel exactly if it lists a
-- peer at all and an entry that opens the target's port.
pub authorize-tunnel_iff :
    (a : Auth) (id : Text) (target : Authority)
    → ((ps : List NetworkPolicyPort) → a.ports ≡ some ps → All IsNumeric ps)
    → (v : Verdict) × (authorize a id (tunnel target) ≡ some v)
      × ((v ≡ allowed) ↔ (NamesPeer a × OpensPort a target.port))
unfolding authorize
authorize-tunnel_iff a id target h =
    let (b, eb, iff) = allows_port-OpensPort a target.port h in
    decide_by b (allows_endpoint a id) eb refl iff (allows_endpoint-NamesPeer a id)
  where
    decide_by :
        (b named : Bool)
        → allows_port a target.port ≡ some b
        → allows_endpoint a id ≡ named
        → ((b ≡ true) ↔ OpensPort a target.port)
        → ((allows_endpoint a id ≡ true) ↔ NamesPeer a)
        → (v : Verdict) × (authorize a id (tunnel target) ≡ some v)
          × ((v ≡ allowed) ↔ (NamesPeer a × OpensPort a target.port))
    decide_by true true eb en iff names =
        (allowed, rw (en, eb, authorize), (λ _. (names.0 en, iff.0 refl), λ _. refl))
    decide_by false true eb en iff names =
        (forbidden, rw (en, eb, authorize), (λ e. cc, λ (n, o). absurd (ground (arith, iff.1 o))))
    decide_by b false eb en iff names =
        (forbidden, rw (en, authorize), (λ e. cc, λ (n, o). absurd (ground (arith, names.1 n))))

-- A policy that lists no ports or no peers, as the default one, denies every request, and every
-- policy denies an absolute URL.
pub authorize-denied :
    (a : Auth) (id : Text) (kind : HttpProxyRequestKind)
    → (a.ports ≡ none)
      ⊎ (a.ports ≡ some [])
      ⊎ (a.from ≡ none)
      ⊎ (a.from ≡ some [])
      ⊎ ((url : Text) × (kind ≡ absolute url))
    → authorize a id kind ≡ some forbidden
unfolding authorize
authorize-denied a id (tunnel target) h = ground arith
authorize-denied a id (absolute url) h = ground arith
