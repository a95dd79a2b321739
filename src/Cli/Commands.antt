-- ===== src/Cli/Commands.antt =====
-- cli/src/main.rs: what the commands do before they call the library and when it has returned.
use datum_connect.Base.{
  ℕ, ◌≡◌, refl, ◌≢◌, ◌↔◌, inl, inr, true, false, Option, none, some, List, arith, if◌then◌else◌,
  ==_refl, option_eq, nat_eq, text_eq, Option-cases, Result, ok, err, is_ok, Result-cases,
}
use datum_connect.Text.{Text, is_some}
use datum_connect.State.{ProxyState, State, id, from_host_port_str, set_proxy, proxy_by_id}
use datum_connect.State.Names.{new_advertisment, new_advertisment-fields}
use datum_connect.State.Table.{proxy_by_id-set_proxy}
use datum_connect.State.Store
use datum_connect.State.Store.{
  Disk, StateWrapper, update, load_state, new_wrapper, load_state-update, update_lem,
}
use datum_connect.Repo.{GatewayConfig, SocketAddr, DiscoveryMode, default}
use datum_connect.Node.Endpoint.{build_endpoint}

-- The arguments of the gateway; an address is a number.
pub record ServeArgs : Type 0 where
  pub bind_addr : ℕ
  pub port : ℕ
  pub metrics_addr : Option ℕ
  pub metrics_port : Option ℕ
  pub uds : Option Text
  pub discovery : Option DiscoveryMode
  pub dns_origin : Option Text
  pub dns_resolver : Option SocketAddr

abbrev pub gateway_bind_addr : ServeArgs → SocketAddr
gateway_bind_addr args = record { ip = args.bind_addr; port = args.port }

abbrev metrics_addr_of : ℕ → Option ℕ → Option ℕ → Option SocketAddr
metrics_addr_of bind_addr none none = none
metrics_addr_of bind_addr (some addr) (some port) = some (record { ip = addr; port = port })
metrics_addr_of bind_addr (some addr) none = some (record { ip = addr; port = 9090 })
metrics_addr_of bind_addr none (some port) = some (record { ip = bind_addr; port = port })

abbrev pub metrics_bind_addr : ServeArgs → Option SocketAddr
metrics_bind_addr args = metrics_addr_of args.bind_addr args.metrics_addr args.metrics_port

abbrev over {ℓ} : {A : Type ℓ} → Option A → A → A
over none a = a
over (some b) a = b

abbrev pub override : ServeArgs → GatewayConfig → GatewayConfig
override args config = record config {
  common = record config.common {
    discovery_mode = over args.discovery config.common.discovery_mode;
    dns_origin = if is_some args.dns_origin then args.dns_origin else config.common.dns_origin;
    dns_resolver =
        if is_some args.dns_resolver then args.dns_resolver else config.common.dns_resolver;
  };
}

-- The gateway's endpoint is refused exactly if a mode that needs DNS was chosen, by the arguments or
-- the file, and neither gives an origin. The arguments go first.
pub build_endpoint-override :
    (args : ServeArgs) (config : GatewayConfig)
    → (is_ok (build_endpoint (override args config).common) ≡ false) ↔ (
        (over args.discovery config.common.discovery_mode ≢ default)
        × (args.dns_origin ≡ none)
        × (config.common.dns_origin ≡ none))
unfolding build_endpoint
build_endpoint-override args config = ground arith

module _ (D : Disk) where
  -- The command `add tcp-proxy`; `drawn` are the characters drawn for the new id, and the first error
  -- is for a list that has too few.
  unfoldable pub add_tcp_proxy :
      List ℕ → Text → Option Text → D.Content → D.Content × Result (Unit {0})
  add_tcp_proxy drawn host label c = elim (from_host_port_str host) [
    | err e ↦ (c, err e)
    | ok service ↦ elim (new_advertisment drawn service label) [
      | none ↦ (c, err "random characters")
      | some info ↦
          let proxy : ProxyState = record { info = info; enabled = true } in
          let (c', loaded) = load_state D c in
          elim loaded [
            | err e ↦ (c', err e)
            | ok w ↦
                let (w', r) = update D w (λ s. (set_proxy s proxy, tt)) in
                elim r [ err e ↦ (w'.disk, err e) | ok u ↦ (w'.disk, ok u) ]
          ]
    ]
  ]

  -- The proxy's file after the command: a restart loads a state with a new proxy, enabled, of the host
  -- and port that were given.
  pub add_tcp_proxy_lem :
      Store.IsLawful D
      → (drawn : List ℕ) (host : Text) (label : Option Text) (c c' : D.Content)
      → add_tcp_proxy drawn host label c ≡ (c', ok tt)
      → (w : StateWrapper D) × (p : ProxyState) × (load_state D c' ≡ (c', ok w))
        × (proxy_by_id w.inner (id p) ≡ some p)
        × (p.enabled ≡ true)
        × (from_host_port_str host ≡ ok p.info.tcp_data)
        × (p.info.label ≡ label)
  unfolding add_tcp_proxy
  add_tcp_proxy_lem L drawn host label c c' h = elim (Result-cases (from_host_port_str host)) [
    | inr (e, q) ↦ ground arith
    | inl (service, q) ↦ elim (Option-cases (new_advertisment drawn service label)) [
      | inl n ↦ ground arith
      | inr (info, n) ↦ elim (Result-cases (load_state D c).1) [
        | inr (e, l) ↦ ground arith
        | inl (w, l) ↦
            let proxy : ProxyState = record { info = info; enabled = true } in
            let f : State → State × Unit {0} = λ s. (set_proxy s proxy, tt) in
            elim (Result-cases (update D w f).1) [
              | inr (e, u) ↦ ground arith
              | inl (x, u) ↦
                  let inner = update_lem D w f in
                  let fields = new_advertisment-fields drawn service label info n in
                  (
                    new_wrapper D (update D w f).0.inner (update D w f).0.disk,
                    proxy,
                    ground (arith, load_state-update D L w f x u),
                    ground (
                      arith,
                      inner,
                      proxy_by_id-set_proxy w.inner proxy (id proxy),
                      ==_refl (id proxy),
                    ),
                    refl,
                    ground (arith, fields),
                    ground (arith, fields),
                  )
            ]
      ]
    ]
  ]
