-- ===== src/Tunnels/Tests.antt =====
-- Runs of the tunnel service over a small control plane, and instances of its theorems.
use datum_connect.Base.{
  ◌≡◌, ◌≢◌, refl, ◌⊎◌, Bool, true, false, Option, none, some, [], ◌∷◌, if◌then◌else◌, ◌==◌,
  option_eq, nat_eq, text_eq, ok, err,
}
use datum_connect.Text.{contains, Text, codes, print_uint, parse_uint, rsplit_once, trim}
use datum_connect.Connection.{EndpointAddr}
use datum_connect.Resources.{Connector, ConnectorAdvertisement, HttpProxy}
use datum_connect.State.{
  service, set_entry, take_entry, State, ProxyState, default_state, set_proxy, remove_proxy,
  from_host_port_str, parse_host_port, TcpProxyData, proxy_by_id,
}
use datum_connect.State.Store.{set_proxy_state, remove_proxy_state, update, Disk, new_wrapper}
use datum_connect.Tunnels.{
  has_condition, condition_is_true, proxy_hostnames, proxy_uses_connector, proxy_backend_endpoint,
  Url, TunnelSummary, normalize_endpoint, parse_target, proxy_state_from_summary, strip_scheme,
}
use datum_connect.Request
use datum_connect.Request.{Authority, allowed}
use datum_connect.Node.{strip_host_scheme, authorize}
use datum_connect.Tunnels.Io.{ControlPlane, World}
use datum_connect.Tunnels.Connectors.{find_connector, ensure_connector, pick, ensured}
use datum_connect.Tunnels.Service.{
  create_objects, update_objects, update_ad, switch_objects, drop_ad, store, store_summary,
  create_project, update_project, set_enabled_project,
}
use datum_connect.Tunnels.Removal.{delete_with, delete_objects, release_connector, delete_project}
use datum_connect.Tunnels.Listing.{listed, tunnels_of, store_all, list_project}
use datum_connect.Tunnels.Creation.{create_project-node}
use datum_connect.Tunnels.Changes.{set_enabled_project-node, switch, perform-err}
use datum_connect.Tunnels.Deletion.{delete_project-node}

abbrev disk : Disk
disk = record {
  Content = Option State;
  exists = λ c. elim c [ none ↦ false | some s ↦ true ];
  read = λ c. elim c [ none ↦ err "no file" | some s ↦ ok s ];
  write = λ s c. (some s, ok tt);
}

abbrev parse_url : Text → Option Url
parse_url s =
    if s == codes "http://a:8"
    then some (record { host_str = some (codes "a"); port = some 8 })
    else if s == codes "http://a:80"
    then some (record { host_str = some (codes "a"); port = none })
    else none

abbrev addr : EndpointAddr
addr = record { id = codes "node"; relay_urls = []; ip_addrs = [] }

abbrev connector : Connector
connector = record {
  metadata = record { name = some (codes "c"); generate_name = none; annotations = none };
  spec = record { connector_class_name = codes "datum-connect"; capabilities = none };
  status = none;
}

-- A control plane with a switch for each of its two failures: the connectors cannot be listed, or
-- there is no proxy.
record Faults : Type 0 where
  no_connectors : Bool
  no_proxy : Bool

abbrev named : HttpProxy → HttpProxy
named p = record p { metadata = record p.metadata { name = some (codes "t") } }

abbrev stored : HttpProxy
stored = record {
  metadata = record { name = some (codes "t"); generate_name = none; annotations = none };
  spec = record {
    hostnames = none;
    rules =
        record {
          name = none;
          matches = [];
          backends = some (
              record {
                endpoint = codes "http://a:8";
                connector = some (record { name = codes "c" });
              }
              ∷ []);
        }
        ∷ [];
  };
  status = none;
}

abbrev ad : ConnectorAdvertisement
ad = record {
  metadata = record { name = some (codes "t"); generate_name = none; annotations = none };
  spec = record { connector_ref = record { name = codes "c" }; layer4 = none };
}

abbrev plane : ControlPlane
plane = record {
  Cluster = Faults;
  Client = Unit;
  connect = λ i c. (c, ok tt);
  list_proxies = λ k c. (c, ok (stored ∷ []));
  get_proxy = λ k n c. (c, if c.no_proxy then err "404" else ok stored);
  get_opt_proxy = λ k n c. (c, ok (some stored));
  create_proxy = λ k p c. (c, ok (named p));
  patch_proxy = λ k n p c. (c, ok stored);
  delete_proxy = λ k n c. (c, ok tt);
  list_ads = λ k s c. (c, ok (ad ∷ []));
  get_opt_ad = λ k n c. (c, ok (some ad));
  create_ad = λ k a c. (c, ok a);
  patch_ad = λ k n s c. (c, ok ad);
  delete_ad = λ k n c. (c, ok tt);
  list_connectors = λ k s c. (c, if c.no_connectors then err "500" else ok (connector ∷ []));
  get_connector = λ k n c. (c, ok connector);
  get_opt_connector = λ k n c. (c, ok (some connector));
  create_connector = λ k x c. (c, ok x);
  patch_connector_status = λ k n d c. (c, ok tt);
  delete_connector = λ k n c. (c, ok tt);
  name_any = λ m. elim m.name [ none ↦ [] | some n ↦ n ];
}

abbrev world : World plane disk
world = record {
  cluster = record { no_connectors = false; no_proxy = false };
  node = new_wrapper disk default_state none;
}

abbrev without_proxy : World plane disk
without_proxy = record world { cluster = record { no_connectors = false; no_proxy = true } }

abbrev tunnel : Bool → TunnelSummary
tunnel enabled = record {
  id = codes "t";
  label = codes "web";
  endpoint = codes "http://a:8";
  hostnames = [];
  enabled = enabled;
  accepted = false;
  programmed = false;
}

abbrev offered : Text → Bool → ProxyState
offered label enabled = record {
  info = record {
    resource_id = codes "t";
    label = some label;
    tcp_data = record { host = codes "a"; port = 8 };
  };
  enabled = enabled;
}

-- The world with a state that was stored once.
abbrev storing : ProxyState → World plane disk
storing p = record world {
  node = record {
    inner = record { proxies = p ∷ [] };
    notified = 1;
    disk = some (record { proxies = p ∷ [] });
  };
}

creates :
    create_project plane disk parse_url addr false (codes "p") (codes "web") (codes "a:8") world
    ≡ (storing (offered (codes "web") true), ok (tunnel true))
unfolding create_project create_objects ensure_connector find_connector pick ensured
    normalize_endpoint parse_target proxy_state_from_summary strip_scheme from_host_port_str
    parse_host_port store set_proxy_state update set_proxy set_entry trim rsplit_once parse_uint
    print_uint contains has_condition condition_is_true proxy_hostnames proxy_uses_connector
    proxy_backend_endpoint nat_eq text_eq
creates = refl

create_project-node_example :
    (p : ProxyState) × (proxy_state_from_summary parse_url
        (codes "t")
        (normalize_endpoint (codes "a:8"))
        (codes "web")
        true
      ≡ ok p)
    × ((storing (offered (codes "web") true)).node.inner ≡ set_proxy default_state p)
    × (true ≡ true)
    × ((target : Authority)
        → strip_host_scheme target.host ≡ (service p).host
        → target.port ≡ (service p).port
        → authorize (storing (offered (codes "web") true)).node.inner (Request.tunnel target)
          ≡ allowed)
create_project-node_example =
    create_project-node plane disk parse_url addr false (codes "p") (codes "web") (codes "a:8")
      world (storing (offered (codes "web") true)) (tunnel true) creates

no_port : parse_target parse_url (normalize_endpoint (codes "a:80")) ≡ err "missing port"
unfolding normalize_endpoint parse_target trim contains has_condition condition_is_true
    proxy_hostnames proxy_uses_connector proxy_backend_endpoint nat_eq text_eq
no_port = refl

switches :
    set_enabled_project plane disk parse_url addr false (codes "p") (codes "t") false world
    ≡ (storing (offered (codes "t") false), ok (record (tunnel false) { label = codes "t" }))
unfolding set_enabled_project switch_objects drop_ad ensure_connector find_connector pick ensured
    normalize_endpoint proxy_state_from_summary strip_scheme from_host_port_str parse_host_port
    store store_summary set_proxy_state update set_proxy set_entry trim rsplit_once parse_uint
    print_uint contains has_condition condition_is_true proxy_hostnames proxy_uses_connector
    proxy_backend_endpoint nat_eq text_eq
switches = refl

set_enabled_project-node_example :
    let s = (storing (offered (codes "t") false)).node.inner in
    (codes "t" ≡ codes "t")
    × (false ≡ false)
    × ((address : TcpProxyData)
        → false ≡ false
        → from_host_port_str (strip_scheme parse_url (codes "http://a:8")) ≡ ok address
        → (p : ProxyState) × (proxy_by_id s (codes "t") ≡ some p)
          × (p.enabled ≡ false)
          × (service p ≡ address))
    × (false ≡ true → s ≡ default_state)
    × ((j : Text) → j ≢ codes "t" → proxy_by_id s j ≡ proxy_by_id default_state j)
set_enabled_project-node_example =
    set_enabled_project-node plane disk parse_url addr false (codes "p") (codes "t") false world
      (storing (offered (codes "t") false)) (record (tunnel false) { label = codes "t" }) switches

updates :
    update_project plane disk parse_url addr false
      (codes "p")
      (codes "t")
      (codes "web")
      (codes "a:8")
      world
    ≡ (storing (offered (codes "web") true), ok (tunnel true))
unfolding update_project update_objects update_ad ensure_connector find_connector pick ensured
    normalize_endpoint parse_target proxy_state_from_summary strip_scheme from_host_port_str
    parse_host_port store store_summary set_proxy_state update set_proxy set_entry trim rsplit_once
    parse_uint print_uint contains has_condition condition_is_true proxy_hostnames
    proxy_uses_connector proxy_backend_endpoint nat_eq text_eq
updates = refl

fails :
    set_enabled_project plane disk parse_url addr false (codes "p") (codes "t") false without_proxy
    ≡ (without_proxy, err "404")
unfolding set_enabled_project switch_objects ensure_connector find_connector pick ensured
fails = refl

perform-err_example : without_proxy.node ≡ without_proxy.node
perform-err_example =
    perform-err plane disk parse_url addr false (codes "p") (switch (codes "t") false) without_proxy
      without_proxy "404" fails

lists :
    list_project plane disk parse_url addr false (codes "p") world
    ≡ (storing (offered (codes "t") true), ok (record (tunnel true) { label = codes "t" } ∷ []))
unfolding list_project listed tunnels_of store_all find_connector pick normalize_endpoint
    proxy_state_from_summary strip_scheme from_host_port_str parse_host_port store store_summary
    set_proxy_state update set_proxy set_entry trim rsplit_once parse_uint print_uint contains
    has_condition condition_is_true proxy_hostnames proxy_uses_connector proxy_backend_endpoint
    nat_eq text_eq
lists = refl

abbrev emptied : World plane disk
emptied = record world {
  node = record { inner = default_state; notified = 2; disk = some default_state };
}

deletes :
    delete_project plane disk addr (codes "p") (codes "t") (storing (offered (codes "t") true))
    ≡ (emptied, ok (record { project_id = codes "p"; connector_deleted = false }))
unfolding delete_project delete_with delete_objects release_connector find_connector pick
    remove_proxy_state update remove_proxy take_entry contains has_condition condition_is_true
    proxy_hostnames proxy_uses_connector proxy_backend_endpoint nat_eq text_eq
deletes = refl

delete_project-node_example :
    (default_state
      ≡ (remove_proxy (record { proxies = offered (codes "t") true ∷ [] }) (codes "t")).0)
    ⊎ (((find_connector plane disk addr (codes "p") (storing (offered (codes "t") true))).1
          ≡ ok none)
        × (emptied
            ≡ (find_connector plane disk addr (codes "p") (storing (offered (codes "t") true))).0)
        × (emptied.node ≡ (storing (offered (codes "t") true)).node)
        × (false ≡ false))
delete_project-node_example =
    delete_project-node plane disk parse_url addr false (codes "p") (codes "t")
      (storing (offered (codes "t") true)) emptied
      (record { project_id = codes "p"; connector_deleted = false }) deletes
