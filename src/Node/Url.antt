-- ===== src/Node/Url.antt =====
-- `parse_host_port_from_url` against the URLs that it is meant for.
use datum_connect.Base.{
  ℕ, ◌≤◌, ◌≡◌, refl, ◌∙◌, false, some, [], ◌∷◌, ◌++◌, arith, option_eq, nat_eq, text_eq, u16_max,
}
use mathlib.Core.List.{append-nil}
use datum_connect.Text.{Text, contains_char, split_first, print_uint}
use datum_connect.Text.Split.{
  rsplit_once-append, rsplit_once-eq-none, split_first-append, split_first_lem,
  contains_char-append,
}
use datum_connect.Text.Decimal.{parse_uint-print_uint, contains_char-print_uint}
use datum_connect.Node.{
  http_scheme, https_scheme, authority_host_port, parse_host_port_from_url, default_port,
}

pub data Scheme : Type 0 where
  http https : Scheme

abbrev pub prefix : Scheme → Text
prefix http = http_scheme
prefix https = https_scheme

abbrev pub port_of_scheme : Scheme → ℕ
port_of_scheme http = 80
port_of_scheme https = 443

-- What may follow the authority: nothing, or a path.
pub data Tail : Type 0 where
  nothing : Tail
  path : Text → Tail

abbrev pub tail_text : Tail → Text
tail_text nothing = []
tail_text (path p) = b'/' ∷ p

split_first-tail :
    (authority : Text) (t : Tail)
    → contains_char authority b'/' ≡ false
    → split_first (authority ++ tail_text t) b'/' ≡ authority
split_first-tail authority nothing h = rw append-nil (split_first_lem authority b'/' h)
split_first-tail authority (path p) h = split_first-append authority b'/' p h

default_port-prefix :
    (c : Scheme) (rest : Text) → default_port (prefix c ++ rest) ≡ port_of_scheme c
unfolding default_port nat_eq
default_port-prefix http rest = refl
default_port-prefix https rest = refl

parse_host_port_from_url-scheme :
    (c : Scheme) (authority : Text) (t : Tail)
    → contains_char authority b'/' ≡ false
    → parse_host_port_from_url (prefix c ++ (authority ++ tail_text t))
      ≡ authority_host_port (prefix c ++ (authority ++ tail_text t)) authority
unfolding parse_host_port_from_url nat_eq
parse_host_port_from_url-scheme http authority t h = rw (split_first-tail authority t h)
parse_host_port_from_url-scheme https authority t h = rw (split_first-tail authority t h)

-- An http or https URL with a port is split into its host, whatever the host is but a slash, and the
-- port; a path behind it does not matter.
pub parse_host_port_from_url-port :
    (c : Scheme) (host : Text) (port : ℕ) (t : Tail)
    → contains_char host b'/' ≡ false
    → port ≤ u16_max
    → parse_host_port_from_url (prefix c ++ ((host ++ b':' ∷ print_uint port) ++ tail_text t))
      ≡ some (host, port)
unfolding authority_host_port nat_eq
parse_host_port_from_url-port c host port t h fits =
    parse_host_port_from_url-scheme c (host ++ b':' ∷ print_uint port) t (
      rw (
        contains_char-append host (b':' ∷ print_uint port) b'/',
        h,
        contains_char-print_uint b'/' port refl,
      ))
    ∙ rw (
      authority_host_port,
      rsplit_once-append host b':' (print_uint port) (contains_char-print_uint b':' port refl),
      parse_uint-print_uint u16_max port fits (omega arith),
    )

-- Without a port it is the one of the scheme.
pub parse_host_port_from_url-default :
    (c : Scheme) (host : Text) (t : Tail)
    → contains_char host b'/' ≡ false
    → contains_char host b':' ≡ false
    → parse_host_port_from_url (prefix c ++ (host ++ tail_text t)) ≡ some (host, port_of_scheme c)
unfolding authority_host_port
parse_host_port_from_url-default c host t h k =
    parse_host_port_from_url-scheme c host t h
    ∙ rw (authority_host_port, rsplit_once-eq-none host b':' k, default_port-prefix)
