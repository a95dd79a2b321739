-- ===== src/State/Tests.antt =====
-- Runs of lib/src/state.rs on concrete input, and instances of its theorems.
use datum_connect.Base.{
  ◌≡◌, refl, true, false, Option, none, some, [], ◌∷◌, arith, option_eq, nat_eq, text_eq, length,
  All, ok, err,
}
use datum_connect.Text.{Text, codes, rsplit_once, parse_uint}
use datum_connect.State.{
  TcpProxyData, ProxyState, State, set_proxy, proxy_by_id, with_id, new_proxy_state,
  from_host_port_str, address, default_state, find_id,
}
use datum_connect.State.Table.{UniqueIds, proxy_by_id-set_proxy}
use datum_connect.State.Address.{from_host_port_str-address}
use datum_connect.State.Names.{rand_str, rand_str_total, usable, IsIdChar}
use datum_connect.State.Store.{Disk, IsLawful, new_wrapper, update, load_state, load_state-update}

abbrev pub web : TcpProxyData
web = record { host = codes "127.0.0.1"; port = 5173 }

abbrev pub ssh : TcpProxyData
ssh = record { host = codes "localhost"; port = 22 }

abbrev pub web_proxy : ProxyState
web_proxy = new_proxy_state (with_id (codes "proxy-a") web none)

abbrev pub ssh_proxy : ProxyState
ssh_proxy = record { info = with_id (codes "proxy-b") ssh (some (codes "shell")); enabled = false }

abbrev pub two_proxies : State
two_proxies = record { proxies = web_proxy ∷ ssh_proxy ∷ [] }

pub two_proxies-UniqueIds : UniqueIds two_proxies.proxies
unfolding find_id text_eq
two_proxies-UniqueIds = (refl, (refl, tt))

proxy_by_id-set_proxy_example :
    proxy_by_id (set_proxy two_proxies ssh_proxy) (codes "proxy-a") ≡ some web_proxy
unfolding find_id text_eq
proxy_by_id-set_proxy_example = proxy_by_id-set_proxy two_proxies ssh_proxy (codes "proxy-a")

from_host_port_str-address_example : from_host_port_str (address web) ≡ ok web
from_host_port_str-address_example = from_host_port_str-address web (omega arith)

accepted : from_host_port_str (codes "::1:0080") ≡ ok (record { host = codes "::1"; port = 80 })
unfolding from_host_port_str rsplit_once parse_uint nat_eq
accepted = refl

rand_str_total_example :
    (s : Text) × (rand_str (codes "aZ9Q") 2 ≡ some s) × (length s ≡ 2) × All IsIdChar s
unfolding usable
rand_str_total_example = rand_str_total (codes "aZ9Q") 2 (omega arith)

-- A disk that holds the state itself, and whose writes succeed.
abbrev ram_disk : Disk
ram_disk = record {
  Content = Option State;
  exists = λ c. elim c [ none ↦ false | some _ ↦ true ];
  read = λ c. elim c [ none ↦ err "no such file" | some s ↦ ok s ];
  write = λ s c. (some s, ok tt);
}

ram_disk-IsLawful : IsLawful ram_disk
ram_disk-IsLawful = record { exists-write = λ s c h. refl; read-write = λ s c h. refl }

-- A disk whose writes fail.
abbrev full_disk : Disk
full_disk = record {
  Content = Unit {0};
  exists = λ c. true;
  read = λ c. ok default_state;
  write = λ s c. (tt, err "disk full");
}

load_state-update_example :
    let w' =
      (update ram_disk
        (new_wrapper ram_disk two_proxies none)
        (λ s. (set_proxy s web_proxy, tt))).0 in
    load_state ram_disk w'.disk ≡ (w'.disk, ok (new_wrapper ram_disk w'.inner w'.disk))
unfolding update
load_state-update_example =
    load_state-update ram_disk ram_disk-IsLawful (new_wrapper ram_disk two_proxies none)
      (λ s. (set_proxy s web_proxy, tt)) tt refl
