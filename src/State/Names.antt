-- ===== src/State/Names.antt =====
-- The names of an advertisement: its label, its domain and its addresses, and the random part of a
-- new id.
use datum_connect.Base.{
  ℕ, zero, suc, ◌+◌, ◌≤◌, ◌≡◌, refl, inl, inr, Bool, true, ◌&&◌, ◌||◌, Option, none, some, List, [],
  ◌∷◌, ◌++◌, arith, if◌then◌else◌, option_eq, nat_eq, text_eq, Bool-cases, leb, length, All,
}
use datum_connect.Text.{Text, codes, is_digit}
use datum_connect.State.{Advertisment, TcpProxyData, address, with_id}

abbrev pub gateway_domain_name : Text
gateway_domain_name = codes "iroh.datum.net"

unfoldable pub label : Advertisment → Text
label a = elim a.label [ some l ↦ l | none ↦ a.resource_id ]

pub codename : Advertisment → Text
codename a = a.resource_id

pub domain : Advertisment → Text
domain a = a.resource_id ++ b'.' ∷ gateway_domain_name

pub datum_url : Advertisment → Text
datum_url a = codes "http://" ++ (a.resource_id ++ b'.' ∷ gateway_domain_name)

pub local_url : Advertisment → Text
local_url a = codes "http://" ++ address a.tcp_data

pub datum_resource_url : Advertisment → Text
datum_resource_url a = codes "datum://" ++ a.resource_id

abbrev pub is_ascii_lowercase : ℕ → Bool
is_ascii_lowercase c = leb b'a' c && leb c b'z'

-- `rand_str`: characters are drawn until `len` of them are a lower-case letter or a digit. `drawn`
-- are the characters that the generator yields.
unfoldable pub rand_str : List ℕ → ℕ → Option Text
rand_str drawn zero = some []
rand_str [] (suc len) = none
rand_str (c ∷ drawn) (suc len) =
    let taken = rand_str drawn len in
    let skipped = rand_str drawn (suc len) in
    if is_ascii_lowercase c || is_digit c
    then elim taken [ none ↦ none | some s ↦ some (c ∷ s) ]
    else skipped

-- `Advertisment::new`
unfoldable pub new_advertisment : List ℕ → TcpProxyData → Option Text → Option Advertisment
new_advertisment drawn d label = elim (rand_str drawn 12) [
  | none ↦ none
  | some s ↦ some (with_id (codes "proxy-" ++ s) d label)
]

pub new_advertisment-fields :
    (drawn : List ℕ) (d : TcpProxyData) (l : Option Text) (a : Advertisment)
    → new_advertisment drawn d l ≡ some a
    → (a.tcp_data ≡ d) × (a.label ≡ l)
unfolding new_advertisment
new_advertisment-fields drawn d l a h = ground arith

abbrev pub IsIdChar : ℕ → Type 0
IsIdChar c = (is_ascii_lowercase c || is_digit c) ≡ true

-- The number of usable characters among those drawn.
unfoldable pub usable : List ℕ → ℕ
usable [] = 0
usable (c ∷ drawn) = if is_ascii_lowercase c || is_digit c then usable drawn + 1 else usable drawn

-- As soon as `len` usable characters were drawn, the result is there: it has `len` characters, all
-- of them lower-case letters or digits.
pub rand_str_total :
    (drawn : List ℕ) (len : ℕ)
    → len ≤ usable drawn
    → (s : Text) × (rand_str drawn len ≡ some s) × (length s ≡ len) × All IsIdChar s
unfolding rand_str usable
rand_str_total drawn zero h = ([], refl, refl, tt)
rand_str_total [] (suc len) h = absurd (omega arith)
rand_str_total (c ∷ drawn) (suc len) h = elim (Bool-cases (is_ascii_lowercase c || is_digit c)) [
  | inl e ↦
      let (s, got, size, chars) = rand_str_total drawn len (ground arith) in
      (c ∷ s, ground arith, ground arith, (e, chars))
  | inr e ↦
      let (s, got, size, chars) = rand_str_total drawn (suc len) (ground arith) in
      (s, ground arith, size, chars)
]
