-- ===== src/Tunnels/Local.antt =====
-- How the local node takes over the tunnels of the control plane.
use datum_connect.Base.{
  String, ◌≡◌, refl, sym, ap, subst, ◌∙◌, inl, inr, ◌≢◌, Bool, false, Option, some, ==_refl, arith,
  if◌then◌else◌, option_eq, nat_eq, text_eq, Result, ok, err, Result-cases,
}
use datum_connect.Text.{Text}
use datum_connect.Connection.{EndpointAddr}
use datum_connect.State.{
  State, ProxyState, TcpProxyData, set_proxy, service, id, proxy_by_id, with_id, from_host_port_str,
}
use datum_connect.State.Table.{proxy_by_id-set_proxy}
use datum_connect.State.Store.{Disk, update_lem, set_proxy_state}
use datum_connect.Tunnels.{Url, TunnelSummary, proxy_state_from_summary, strip_scheme}
use datum_connect.Tunnels.Io.{◌>>=◌, ◌>>◌, pure, ControlPlane, World, Io, Keeps}
use datum_connect.Tunnels.Service.{store, store_summary}

-- The state with the tunnel's proxy, if tickets are not published and its endpoint is one that a node
-- can offer.
abbrev pub taken_over : (Text → Option Url) → Bool → TunnelSummary → State → State
taken_over parse_url publish_tickets t s =
    if publish_tickets
    then s
    else elim (proxy_state_from_summary parse_url t.id t.endpoint t.label t.enabled) [
      | err e ↦ s
      | ok p ↦ set_proxy s p
    ]

-- The proxy of a tunnel whose endpoint has an address.
summary-address :
    (parse_url : Text → Option Url) (tunnel_id endpoint label : Text) (enabled : Bool)
    (address : TcpProxyData)
    → from_host_port_str (strip_scheme parse_url endpoint) ≡ ok address
    → (p : ProxyState) × (proxy_state_from_summary parse_url tunnel_id endpoint label enabled
        ≡ ok p)
      × (id p ≡ tunnel_id)
      × (p.enabled ≡ enabled)
      × (service p ≡ address)
unfolding proxy_state_from_summary
summary-address parse_url tunnel_id endpoint label enabled address h = (
  record { info = with_id tunnel_id address (some label); enabled = enabled },
  ground (arith, h),
  refl,
  refl,
  refl,
)

-- Where tickets are not published, a tunnel with such an endpoint is in the state then.
pub taken_over-there :
    (parse_url : Text → Option Url) (publish_tickets : Bool) (t : TunnelSummary) (s s' : State)
    (tunnel_id : Text) (enabled : Bool) (address : TcpProxyData)
    → t.id ≡ tunnel_id
    → t.enabled ≡ enabled
    → s' ≡ taken_over parse_url publish_tickets t s
    → publish_tickets ≡ false
    → from_host_port_str (strip_scheme parse_url t.endpoint) ≡ ok address
    → (p : ProxyState) × (proxy_by_id s' tunnel_id ≡ some p)
      × (p.enabled ≡ enabled)
      × (service p ≡ address)
taken_over-there parse_url publish_tickets t s s' tunnel_id enabled address i e q off offers =
    let (p, made, name, on, at) =
      summary-address parse_url t.id t.endpoint t.label t.enabled address offers in
    (
      p,
      ground (arith, proxy_by_id-set_proxy s p tunnel_id, q, off, made, name, i, ==_refl tunnel_id),
      on ∙ e,
      at,
    )

-- The proxies of other ids stay.
pub taken_over-others :
    (parse_url : Text → Option Url) (publish_tickets : Bool) (t : TunnelSummary) (s : State)
    (j : Text)
    → j ≢ t.id
    → proxy_by_id (taken_over parse_url publish_tickets t s) j ≡ proxy_by_id s j
unfolding proxy_state_from_summary
taken_over-others parse_url publish_tickets t s j n =
    elim (Result-cases (from_host_port_str (strip_scheme parse_url t.endpoint))) [
      | inr (e, f) ↦ ground arith
      | inl (address, f) ↦ ground (
        arith,
        proxy_by_id-set_proxy s
            (record { info = with_id t.id address (some t.label); enabled = t.enabled }) j,
      )
    ]

module _ (K : ControlPlane) (D : Disk) (parse_url : Text → Option Url) (addr : EndpointAddr)
    (publish_tickets : Bool) where
  pub store-node :
      (p : ProxyState) (w : World K D)
      → ((store K D parse_url addr publish_tickets p w).0.node.inner ≡ set_proxy w.node.inner p)
        × ((r : Result (Unit {0})) × ((store K D parse_url addr publish_tickets p w).1 ≡ ok r))
  unfolding store set_proxy_state
  store-node p w = ((update_lem D w.node (λ s. (set_proxy s p, tt))).0, (_, refl))

  pub store_summary-node :
      (t : TunnelSummary) (w : World K D)
      → ((store_summary K D parse_url addr publish_tickets t w).0.node.inner
          ≡ taken_over parse_url publish_tickets t w.node.inner)
        × ((store_summary K D parse_url addr publish_tickets t w).1 ≡ ok tt)
  unfolding store_summary
  store_summary-node t w =
      elim (Result-cases (proxy_state_from_summary parse_url t.id t.endpoint t.label t.enabled)) [
        | inr (e, f) ↦ ground arith
        | inl (p, f) ↦ ground (arith, store-node p w)
      ]

  same_summary :
      (s s' : State) (t u : TunnelSummary)
      → Result.ok t ≡ ok u
      → s' ≡ taken_over parse_url publish_tickets t s
      → s' ≡ taken_over parse_url publish_tickets u s
  same_summary s s' t u e h =
      let same : t ≡ u = cc in subst (λ v. s' ≡ taken_over parse_url publish_tickets v s) same h

  abbrev pub finished : Io K D TunnelSummary → Io K D TunnelSummary
  finished m = m >>= λ t. store_summary K D parse_url addr publish_tickets t >> pure (ok t)

  pub finished-node :
      (m : Io K D TunnelSummary)
      → Keeps m
      → (w w' : World K D) (r : Result TunnelSummary) → finished m w ≡ (w', r)
      → ((m w).1 ≡ r)
        × ((t : TunnelSummary)
            → r ≡ ok t
            → w'.node.inner ≡ taken_over parse_url publish_tickets t w.node.inner)
        × ((e : String) → r ≡ err e → w'.node ≡ w.node)
  finished-node m keeps w w' r h = go (m w).1 refl
    where
      go :
          (q : Result TunnelSummary)
          → (m w).1 ≡ q
          → ((m w).1 ≡ r)
            × ((t : TunnelSummary)
                → r ≡ ok t
                → w'.node.inner ≡ taken_over parse_url publish_tickets t w.node.inner)
            × ((e : String) → r ≡ err e → w'.node ≡ w.node)
      go (err e) g = (ground arith, λ t k. ground arith, λ f k. ground (arith, keeps w))
      go (ok t) g =
          let (inner, done) = store_summary-node t (m w).0 in
          let kept = keeps w in
          let moved : (store_summary K D parse_url addr publish_tickets t (m w).0).0 ≡ w' =
            ground arith in
          let result : Result.ok t ≡ r = ground arith in
          let there : w'.node.inner ≡ taken_over parse_url publish_tickets t w.node.inner =
            ap (λ v. v.node.inner) (sym moved)
            ∙ (inner ∙ ap (λ n. taken_over parse_url publish_tickets t n.inner) kept) in
          (
            g ∙ result,
            λ u k. same_summary w.node.inner w'.node.inner t u (result ∙ k) there,
            λ f k. ground arith,
          )
