-- ===== src/Cli/Dns.antt =====
-- cli/src/dns_dev.rs: the records of the development DNS server. The names, the identifiers of the
-- endpoints and their z-base-32 print are parameters; a catalog is the list of its records.
pub mod Zone
use datum_connect.Base.{
  ℕ, zero, suc, ◌+◌, ◌-◌, ◌*◌, ◌/◌, ◌%◌, ◌^◌, ◌≤◌, ◌<◌, min, max, String, ◌≡◌, refl, sym, ap, subst,
  ◌∙◌, ◌≢◌, ◌↔◌, ◌⊎◌, inl, inr, Bool, true, false, not, ◌&&◌, ◌||◌, Option, none, some, List, [],
  ◌∷◌, ◌++◌, map, arith, if◌then◌else◌, Eq, ◌==◌, ==_refl, eq_of_==, option_eq, nat_eq, text_eq,
  Bool-cases, ltb, leb, u16_max, u32_max, u64_mod, ltb→lt, lt→ltb, leb→le, le→leb, tests, length,
  any, all, find, keep, skip, take, filter_map, All, Option-cases, length-append, find-test,
  find-eq-none, Result, ok, err, ◌>>=◌, ◌>>◌, context, std_context, to_option, is_ok, Result-cases,
}
use datum_connect.Text.{Text, codes, trim_start_matches, is_some}
use mathlib.Core.List.{reverse}

pub record DnsDevRecord : Type 0 where
  pub endpoint_id : Text
  pub relay : Option Text
  pub addrs : List Text

pub record DnsDevConfig : Type 0 where
  pub origin : Text
  pub records : List DnsDevRecord

abbrev pub is_empty {ℓ} : {A : Type ℓ} → List A → Bool
is_empty [] = true
is_empty (x ∷ xs) = false

-- What `upsert` makes of a record that is there.
abbrev pub update_record : Option Text → List Text → DnsDevRecord → DnsDevRecord
update_record relay addrs r = record r {
  relay = if is_some relay then relay else r.relay;
  addrs = if is_empty addrs then r.addrs else addrs;
}

unfoldable pub upsert_record :
    Text → Option Text → List Text → List DnsDevRecord → List DnsDevRecord
upsert_record endpoint_id relay addrs [] =
    record { endpoint_id = endpoint_id; relay = relay; addrs = addrs } ∷ []
upsert_record endpoint_id relay addrs (r ∷ rs) =
    let rest = upsert_record endpoint_id relay addrs rs in
    if r.endpoint_id == endpoint_id then update_record relay addrs r ∷ rs else r ∷ rest

-- The configuration that `upsert` writes, from the one that it has read.
unfoldable pub upsert_config : DnsDevConfig → Text → Text → Option Text → List Text → DnsDevConfig
unfolding upsert_record
upsert_config c origin endpoint_id relay addrs = record {
  origin = if is_empty c.origin || not (c.origin == origin) then origin else c.origin;
  records = upsert_record endpoint_id relay addrs c.records;
}

-- The file of the records: it may be missing, not parse, or not be written.
pub record ConfigFile : Type 1 where
  pub Content : Type 0
  pub exists : Content → Bool
  pub read : Content → Result DnsDevConfig
  pub write : DnsDevConfig → Content → Content × Result (Unit {0})

abbrev pub read_config : (F : ConfigFile) → Text → F.Content → Result DnsDevConfig
read_config F origin c =
    if F.exists c then F.read c else ok (record { origin = origin; records = [] })

unfoldable pub upsert :
    (F : ConfigFile)
    → Text
    → Text
    → Option Text
    → List Text
    → F.Content
    → F.Content × Result (Unit {0})
unfolding upsert_config
upsert F origin endpoint_id relay addrs c = elim (read_config F origin c) [
  | err e ↦ (c, err e)
  | ok config ↦ F.write (upsert_config config origin endpoint_id relay addrs) c
]

abbrev pub find_record : Text → List DnsDevRecord → Option DnsDevRecord
find_record i rs = find (λ r. r.endpoint_id == i) rs

-- The record of an endpoint after an upsert, from the one before it.
abbrev pub merged : Text → Option Text → List Text → Option DnsDevRecord → DnsDevRecord
merged i relay addrs none = record { endpoint_id = i; relay = relay; addrs = addrs }
merged i relay addrs (some r) = update_record relay addrs r

find_record-upsert_record :
    (i j : Text) (relay : Option Text) (addrs : List Text) (rs : List DnsDevRecord)
    → find_record j (upsert_record i relay addrs rs)
      ≡ (if i == j then some (merged i relay addrs (find_record j rs)) else find_record j rs)
unfolding upsert_record
find_record-upsert_record i j relay addrs [] = ground arith
find_record-upsert_record i j relay addrs (r ∷ rs) =
    ground (arith, find_record-upsert_record i j relay addrs rs)

-- An upsert sets the origin and the endpoint's record, in which a relay or addresses that are not
-- given stay as they were, and changes the record of no other endpoint.
pub upsert_config_lem :
    (c : DnsDevConfig) (origin i j : Text) (relay : Option Text) (addrs : List Text)
    → let c' = upsert_config c origin i relay addrs in
      (c'.origin ≡ origin)
      × (find_record j c'.records ≡ (
          if i == j
          then some (merged i relay addrs (find_record j c.records))
          else find_record j c.records))
unfolding upsert_config
upsert_config_lem c origin i j relay addrs =
    (ground arith, find_record-upsert_record i j relay addrs c.records)

-- No two records are of one endpoint.
abbrev pub UniqueEndpoints : List DnsDevRecord → Type 0
UniqueEndpoints [] = Unit
UniqueEndpoints (r ∷ rs) = (find_record r.endpoint_id rs ≡ none) × UniqueEndpoints rs

pub upsert_record-UniqueEndpoints :
    (i : Text) (relay : Option Text) (addrs : List Text) (rs : List DnsDevRecord)
    → UniqueEndpoints rs
    → UniqueEndpoints (upsert_record i relay addrs rs)
unfolding upsert_record
upsert_record-UniqueEndpoints i relay addrs [] u = (refl, tt)
upsert_record-UniqueEndpoints i relay addrs (r ∷ rs) (n, u) = ground (
  arith,
  upsert_record-UniqueEndpoints i relay addrs rs u,
  find_record-upsert_record i r.endpoint_id relay addrs rs,
)
