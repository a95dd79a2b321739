-- ===== src/State/Address.antt =====
-- `TcpProxyData::from_host_port_str` reads what `address` prints.
use datum_connect.Base.{
  refl, ◌≤◌, ◌≡◌, inl, inr, false, some, ◌∷◌, ◌++◌, arith, option_eq, nat_eq, text_eq, u16_max,
  Option-cases, ok, err,
}
use datum_connect.Text.{Text, contains_char, rsplit_once, parse_uint, print_uint}
use datum_connect.Text.Split.{rsplit_once-append, rsplit_once_sound, rsplit_once-eq-none}
use datum_connect.Text.Decimal.{parse_uint-print_uint, parse_uint-le, contains_char-print_uint}
use datum_connect.State.{TcpProxyData, from_host_port_str, address}

-- What `address` prints is read back, whatever the host holds, for every u16 port.
pub from_host_port_str-address :
    (d : TcpProxyData) → d.port ≤ u16_max → from_host_port_str (address d) ≡ ok d
unfolding from_host_port_str address
from_host_port_str-address d h = rw (
  rsplit_once-append d.host b':' (print_uint d.port) (contains_char-print_uint b':' d.port refl),
  parse_uint-print_uint u16_max d.port h (omega arith),
)

-- A text that is accepted is a host, a colon and a port: the port is what stands behind the last
-- colon, it is a number, and it fits a u16.
pub from_host_port_str_sound :
    (s : Text) (d : TcpProxyData)
    → from_host_port_str s ≡ ok d
    → (port_str : Text) × (s ≡ d.host ++ b':' ∷ port_str)
      × (contains_char port_str b':' ≡ false)
      × (parse_uint u16_max port_str ≡ some d.port)
      × (d.port ≤ u16_max)
unfolding from_host_port_str
from_host_port_str_sound s d h = elim (Option-cases (rsplit_once s b':')) [
  | inl e ↦ absurd (ground arith)
  | inr ((host, port_str), e) ↦
      let split = rsplit_once_sound s b':' host port_str e in
      (
        port_str,
        ground arith,
        split.1,
        ground arith,
        ground (arith, parse_uint-le u16_max port_str d.port),
      )
]

-- Without a colon the text is refused as such.
pub from_host_port_str_missing :
    (s : Text) → contains_char s b':' ≡ false → from_host_port_str s ≡ err "missing port"
unfolding from_host_port_str
from_host_port_str_missing s h = rw (rsplit_once-eq-none s b':' h)
