-- ===== src/Cli/Tests.antt =====
-- Runs of the commands, and instances of their theorems.
use datum_connect.Base.{
  ℕ, ◌≤◌, ◌≡◌, refl, true, false, Option, none, some, List, [], ◌∷◌, ◌++◌, option_eq, nat_eq,
  text_eq, length, take, ok, err,
}
use datum_connect.Text.{Text, codes, contains, rsplit_once, parse_uint}
use datum_connect.State.{State, ProxyState, id, from_host_port_str, set_proxy, proxy_by_id}
use datum_connect.State.Names.{rand_str, new_advertisment}
use datum_connect.State.Store
use datum_connect.State.Store.{Disk, StateWrapper, load_state, update}
use datum_connect.Cli.Dns.{DnsDevConfig, upsert_config}
use datum_connect.Cli.Dns.Zone.{
  Names, Record, soa, ns, txt, build_catalog, normalize_origin, ServesRelay,
  build_catalog-upsert_config,
}
use datum_connect.Cli.Connect.{
  connect_request, first_line, read_connect_response, Accepts, max_connect_response, concat,
  read_connect_response_lem,
}
use datum_connect.Cli.Commands.{add_tcp_proxy, add_tcp_proxy_lem}

-- Any name and identifier is as it is printed.
abbrev any_names : Names
any_names = record { name_from_str = λ t. ok t; z32_id = λ t. ok t }

abbrev no_records : DnsDevConfig
no_records = record { origin = []; records = [] }

abbrev zone : List Record
zone =
    record { name = codes "x.test."; rdata = soa (codes "ns.x.test.") (codes "admin.x.test.") }
    ∷ record { name = codes "x.test."; rdata = ns (codes "ns.x.test.") }
    ∷ record { name = codes "_iroh.id.x.test."; rdata = txt (codes "relay=r" ∷ []) }
    ∷ []

builds :
    build_catalog any_names
      (upsert_config no_records (codes "x.test.") (codes "id") (some (codes "r")) [])
      []
    ≡ ok zone
unfolding build_catalog upsert_config nat_eq text_eq
builds = refl

build_catalog-upsert_config_example :
    ServesRelay any_names (normalize_origin (codes "x.test.")) (codes "id") (codes "r") [] zone
build_catalog-upsert_config_example =
    build_catalog-upsert_config any_names no_records (codes "x.test.") [] (codes "id") (codes "r")
      [] zone refl builds

abbrev ascii : List ℕ → Option Text
ascii b = some b

-- Bytes of the tunnel that come with the end of the header
abbrev reply : List (List ℕ)
reply = codes "HTTP/1.1 200 OK\r\n" ∷ codes "\r\nSSH-2.0" ∷ codes "-x" ∷ []

-- They are not among those that are left for the tunnel.
reads : read_connect_response ascii reply ≡ ok (codes "-x" ∷ [])
unfolding read_connect_response contains nat_eq
reads = refl

read_connect_response_lem_example :
    (buf : List ℕ) × (n : ℕ) × (before : List ℕ) × (header : Text) × (take n buf
      ≡ before ++ codes "\r\n\r\n")
    × (length buf ≤ max_connect_response)
    × (buf ++ concat (codes "-x" ∷ []) ≡ concat reply)
    × (ascii (take n buf) ≡ some header)
    × Accepts (first_line header)
read_connect_response_lem_example = read_connect_response_lem ascii reply (codes "-x" ∷ []) reads

requests :
    connect_request (codes "id") (codes "localhost") 80
    ≡ codes "CONNECT localhost:80 HTTP/1.1\r\nHost: localhost:80\r\nx-iroh-endpoint-id: id\r\n\r\n"
unfolding connect_request datum_connect.Text.print_uint
requests = refl

abbrev ram_disk : Disk
ram_disk = record {
  Content = Option State;
  exists = λ c. elim c [ none ↦ false | some _ ↦ true ];
  read = λ c. elim c [ none ↦ err "no such file" | some s ↦ ok s ];
  write = λ s c. (some s, ok tt);
}

ram_disk-IsLawful : Store.IsLawful ram_disk
ram_disk-IsLawful = record { exists-write = λ s c h. refl; read-write = λ s c h. refl }

abbrev added : ProxyState
added = record {
  info = record {
    resource_id = codes "proxy-abcdefghijkl";
    label = none;
    tcp_data = record { host = codes "localhost"; port = 80 };
  };
  enabled = true;
}

adds :
    add_tcp_proxy ram_disk (codes "aBbcdefghijkl") (codes "localhost:80") none none
    ≡ (some (record { proxies = added ∷ [] }), ok tt)
unfolding add_tcp_proxy from_host_port_str rsplit_once parse_uint new_advertisment rand_str
    load_state update set_proxy nat_eq text_eq
adds = refl

add_tcp_proxy_lem_example :
    let c : Option State = some (record { proxies = added ∷ [] }) in
    (w : StateWrapper ram_disk) × (p : ProxyState) × (load_state ram_disk c ≡ (c, ok w))
    × (proxy_by_id w.inner (id p) ≡ some p)
    × (p.enabled ≡ true)
    × (from_host_port_str (codes "localhost:80") ≡ ok p.info.tcp_data)
    × (p.info.label ≡ none)
add_tcp_proxy_lem_example =
    add_tcp_proxy_lem ram_disk ram_disk-IsLawful (codes "aBbcdefghijkl") (codes "localhost:80") none
      none (some (record { proxies = added ∷ [] })) adds
