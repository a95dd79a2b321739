-- ===== src/Cli/Dns/Zone.antt =====
-- `build_catalog`: the records that the server answers with.
use datum_connect.Base.{
  ◌≡◌, refl, sym, eq_of_==, subst, inl, inr, Bool, true, false, ◌&&◌, Option, none, some, List, [],
  ◌∷◌, ◌++◌, arith, if◌then◌else◌, ◌==◌, ==_refl, option_eq, nat_eq, text_eq, Bool-cases, any,
  Result, ok, ◌>>=◌, Result-cases,
}
use datum_connect.Text.{Text, codes, trim_start_matches}
use mathlib.Core.List.{reverse, Memᴰ}
use datum_connect.Cli.Dns.{
  DnsDevRecord, DnsDevConfig, is_empty, find_record, upsert_config, merged, upsert_config_lem,
}

-- What the libraries for names and identifiers do; `z32_id` is the print of an identifier that parses.
pub record Names : Type 0 where
  -- `Name::from_str`
  pub name_from_str : Text → Result Text
  -- `z32::encode` of `EndpointId::from_str`
  pub z32_id : Text → Result Text

pub data RData : Type 0 where
  -- the name server and the administrator
  soa : Text → Text → RData
  ns : Text → RData
  txt : List Text → RData

pub record Record : Type 0 where
  pub name : Text
  pub rdata : RData

-- `origin.trim_end_matches('.')`
unfoldable pub normalize_origin : Text → Text
unfolding trim_start_matches
normalize_origin origin = reverse (trim_start_matches (reverse origin) b'.')

-- `addrs.join(" ")`
abbrev pub join_space : List Text → Text
join_space [] = []
join_space (a ∷ []) = a
join_space (a ∷ b ∷ rest) = a ++ b' ' ∷ join_space (b ∷ rest)

abbrev pub txt_entries : DnsDevRecord → List Text
txt_entries r =
    elim r.relay [ none ↦ [] | some relay ↦ (codes "relay=" ++ relay) ∷ [] ]
    ++ (if is_empty r.addrs then [] else (codes "addr=" ++ join_space r.addrs) ∷ [])

-- The same list of texts
abbrev pub same_texts : List Text → List Text → Bool
same_texts [] [] = true
same_texts (x ∷ xs) (y ∷ ys) = x == y && same_texts xs ys
same_texts _ _ = false

same_texts_refl : (xs : List Text) → same_texts xs xs ≡ true
same_texts_refl [] = refl
same_texts_refl (x ∷ xs) = ground (arith, same_texts_refl xs, ==_refl x)

-- The TXT record of the name with the entries
abbrev pub is_record : Text → List Text → Record → Bool
is_record name entries r =
    r.name == name
    && elim r.rdata [ soa m a ↦ false | ns m ↦ false | txt found ↦ same_texts found entries ]

abbrev pub txt_name : Text → Text → Text
txt_name z32_id origin = codes "_iroh." ++ (z32_id ++ (b'.' ∷ (origin ++ codes ".")))

eq_of_same_texts : (xs ys : List Text) → same_texts xs ys ≡ true → xs ≡ ys
eq_of_same_texts [] [] h = refl
eq_of_same_texts [] (y ∷ ys) h = ground arith
eq_of_same_texts (x ∷ xs) [] h = ground arith
eq_of_same_texts (x ∷ xs) (y ∷ ys) h = ground (arith, eq_of_same_texts xs ys, eq_of_== x y)

is_record-eq :
    (name : Text) (entries : List Text) (r : Record)
    → is_record name entries r ≡ true
    → r ≡ record { name = name; rdata = txt entries }
is_record-eq name entries r h = go r.rdata refl
  where
    go : (d : RData) → r.rdata ≡ d → r ≡ record { name = name; rdata = txt entries }
    go (soa m a) e = ground arith
    go (ns m) e = ground arith
    go (txt found) e = ground (arith, eq_of_== r.name name, eq_of_same_texts found entries)

is_record-Memᴰ :
    (name : Text) (entries : List Text) (out : List Record)
    → any (is_record name entries) out ≡ true
    → Memᴰ (record { name = name; rdata = txt entries }) out
is_record-Memᴰ name entries [] h = cc
is_record-Memᴰ name entries (r ∷ rs) h = elim (Bool-cases (is_record name entries r)) [
  | inl e ↦ Memᴰ.head (sym (is_record-eq name entries r e))
  | inr e ↦ Memᴰ.tail (is_record-Memᴰ name entries rs (ground arith))
]

-- What the record of an endpoint says after an upsert of a relay.
merged-entries :
    (i relay : Text) (addrs : List Text) (found : Option DnsDevRecord)
    → (more : List Text) × (txt_entries (merged i (some relay) addrs found)
        ≡ (codes "relay=" ++ relay) ∷ more)
      × (is_empty addrs ≡ false → more ≡ (codes "addr=" ++ join_space addrs) ∷ [])
merged-entries i relay addrs none = (_, refl, λ e. ground arith)
merged-entries i relay addrs (some r) = (_, refl, λ e. ground arith)

merged-endpoint :
    (i relay : Text) (addrs : List Text) (rs : List DnsDevRecord)
    → (merged i (some relay) addrs (find_record i rs)).endpoint_id ≡ i
merged-endpoint i relay addrs [] = refl
merged-endpoint i relay addrs (r ∷ rs) =
    ground (arith, merged-endpoint i relay addrs rs, eq_of_== r.endpoint_id i)

module _ (N : Names) where
  -- One turn of the loop over the records: none is skipped before its identifier and its name are
  -- looked at.
  abbrev pub txt_record : Text → DnsDevRecord → Result (Option Record)
  txt_record origin r = do
    z32_id ← N.z32_id r.endpoint_id
    name ← N.name_from_str (txt_name z32_id origin)
    ok (
        if is_empty (txt_entries r)
        then none
        else some (record { name = name; rdata = txt (txt_entries r) }))

  abbrev with_record : Option Record → List Record → List Record
  with_record none rs = rs
  with_record (some r) rs = r ∷ rs

  unfoldable pub txt_records : Text → List DnsDevRecord → Result (List Record)
  txt_records origin [] = ok []
  txt_records origin (r ∷ rs) = do
    first ← txt_record origin r
    rest ← txt_records origin rs
    ok (with_record first rest)

  abbrev origin_of : DnsDevConfig → Text → Text
  origin_of config fallback_origin =
      if is_empty config.origin then fallback_origin else config.origin

  unfoldable pub build_catalog : DnsDevConfig → Text → Result (List Record)
  unfolding normalize_origin txt_records
  build_catalog config fallback_origin = do
    let origin = normalize_origin (origin_of config fallback_origin)
    zone_name ← N.name_from_str (origin ++ codes ".")
    mname ← N.name_from_str (codes "ns." ++ (origin ++ codes "."))
    rname ← N.name_from_str (codes "admin." ++ (origin ++ codes "."))
    rest ← txt_records origin config.records
    ok (
        record { name = zone_name; rdata = soa mname rname }
        ∷ record { name = zone_name; rdata = ns mname }
        ∷ rest)

  -- The endpoint's record is among those of the zone, under its name.
  abbrev pub IsServed : Text → DnsDevRecord → List Record → Type 0
  IsServed origin r out =
      (z32_id : Text) × (name : Text) × (N.z32_id r.endpoint_id ≡ ok z32_id)
      × (N.name_from_str (txt_name z32_id origin) ≡ ok name)
      × (any (is_record name (txt_entries r)) out ≡ true)

  txt_record-IsServed :
      (origin : Text) (r : DnsDevRecord) (o : Option Record) (rest : List Record)
      → is_empty (txt_entries r) ≡ false
      → txt_record origin r ≡ ok o
      → IsServed origin r (with_record o rest)
  txt_record-IsServed origin r o rest e h = elim (Result-cases (N.z32_id r.endpoint_id)) [
    | inr (m, q) ↦ ground arith
    | inl (z, q) ↦ elim (Result-cases (N.name_from_str (txt_name z origin))) [
      | inr (m, t) ↦ ground arith
      | inl (name, t) ↦
          (z, name, q, t, ground (arith, same_texts_refl (txt_entries r), ==_refl name))
    ]
  ]

  IsServed-with_record :
      (origin : Text) (r : DnsDevRecord) (o : Option Record) (rest : List Record)
      → IsServed origin r rest
      → IsServed origin r (with_record o rest)
  IsServed-with_record origin r none rest h = h
  IsServed-with_record origin r (some x) rest (z, name, q, t, h) = (z, name, q, t, ground arith)

  txt_records-step :
      (origin : Text) (x : DnsDevRecord) (xs : List DnsDevRecord) (out : List Record)
      → txt_records origin (x ∷ xs) ≡ ok out
      → (o : Option Record) × (rest : List Record) × (txt_record origin x ≡ ok o)
        × (txt_records origin xs ≡ ok rest)
        × (with_record o rest ≡ out)
  unfolding txt_records
  txt_records-step origin x xs out h = elim (Result-cases (txt_record origin x)) [
    | inr (m, q) ↦ ground arith
    | inl (o, q) ↦ elim (Result-cases (txt_records origin xs)) [
      | inr (m, t) ↦ ground arith
      | inl (rest, t) ↦ (o, rest, q, t, ground arith)
    ]
  ]

  txt_records-IsServed :
      (origin i : Text) (r : DnsDevRecord) (rs : List DnsDevRecord) (out : List Record)
      → find_record i rs ≡ some r
      → is_empty (txt_entries r) ≡ false
      → txt_records origin rs ≡ ok out
      → IsServed origin r out
  unfolding txt_records
  txt_records-IsServed origin i r [] out f e h = ground arith
  txt_records-IsServed origin i r (x ∷ xs) out f e h =
      let (o, rest, q, t, j) = txt_records-step origin x xs out h in
      elim (Bool-cases (x.endpoint_id == i)) [
        | inl k ↦
            subst (IsServed origin r) j (txt_record-IsServed origin r o rest e (ground (arith, q)))
        | inr k ↦ subst (IsServed origin r) j (
            IsServed-with_record origin r o rest
              (txt_records-IsServed origin i r xs rest (ground arith) e t))
      ]

  build_catalog-step :
      (config : DnsDevConfig) (fallback : Text) (out : List Record)
      → build_catalog config fallback ≡ ok out
      → (a : Record) × (b : Record) × (rest : List Record) × (txt_records
            (normalize_origin (origin_of config fallback))
            config.records
          ≡ ok rest)
        × (a ∷ b ∷ rest ≡ out)
  unfolding build_catalog
  build_catalog-step config fallback out h =
      elim (Result-cases (N.name_from_str (origin ++ codes "."))) [
        | inr (m, q) ↦ ground arith
        | inl (z, q) ↦
            elim (Result-cases (N.name_from_str (codes "ns." ++ (origin ++ codes ".")))) [
              | inr (m, t) ↦ ground arith
              | inl (mname, t) ↦
                  elim (Result-cases (N.name_from_str (codes "admin." ++ (origin ++ codes ".")))) [
                    | inr (m, u) ↦ ground arith
                    | inl (rname, u) ↦ elim (Result-cases (txt_records origin config.records)) [
                      | inr (m, v) ↦ ground arith
                      | inl (rest, v) ↦ (
                        record { name = z; rdata = soa mname rname },
                        record { name = z; rdata = ns mname },
                        rest,
                        v,
                        ground arith,
                      )
                    ]
                  ]
            ]
      ]
    where
      origin : Text
      origin = normalize_origin (origin_of config fallback)

  build_catalog-merged :
      (c : DnsDevConfig) (origin fallback i relay : Text) (addrs : List Text) (out : List Record)
      → is_empty origin ≡ false
      → build_catalog (upsert_config c origin i (some relay) addrs) fallback ≡ ok out
      → IsServed
          (normalize_origin origin)
          (merged i (some relay) addrs (find_record i c.records))
          out
  build_catalog-merged c origin fallback i relay addrs out e h =
      let config = upsert_config c origin i (some relay) addrs in
      let (a, b, rest, t, j) = build_catalog-step config fallback out h in
      let (o, f) = upsert_config_lem c origin i i (some relay) addrs in
      let served =
        txt_records-IsServed (normalize_origin origin) i
          (merged i (some relay) addrs (find_record i c.records)) config.records rest
          (ground (arith, ==_refl i)) (ground arith) (ground (arith, t, o)) in
      subst (IsServed _ _) j (
        IsServed-with_record _ _ (some a) (b ∷ rest)
          (IsServed-with_record _ _ (some b) rest served))

  -- The zone has a TXT record of the endpoint's name that begins with the relay and, if addresses are
  -- given, has just them behind it.
  abbrev pub ServesRelay : Text → Text → Text → List Text → List Record → Type 0
  ServesRelay origin i relay addrs out =
      (z32_id : Text) × (name : Text) × (more : List Text) × (N.z32_id i ≡ ok z32_id)
      × (N.name_from_str (txt_name z32_id origin) ≡ ok name)
      × Memᴰ (record { name = name; rdata = txt ((codes "relay=" ++ relay) ∷ more) }) out
      × (is_empty addrs ≡ false → more ≡ (codes "addr=" ++ join_space addrs) ∷ [])

  -- A relay that is upserted for an endpoint, whatever the configuration had for it, is in the zone
  -- that is built from the configuration, under the endpoint's name, and so are the addresses, if any
  -- are given.
  pub build_catalog-upsert_config :
      (c : DnsDevConfig) (origin fallback i relay : Text) (addrs : List Text) (out : List Record)
      → is_empty origin ≡ false
      → build_catalog (upsert_config c origin i (some relay) addrs) fallback ≡ ok out
      → ServesRelay (normalize_origin origin) i relay addrs out
  build_catalog-upsert_config c origin fallback i relay addrs out e h =
      let m = merged i (some relay) addrs (find_record i c.records) in
      let (z, name, q, t, there) = build_catalog-merged c origin fallback i relay addrs out e h in
      let (more, starts, all_addrs) = merged-entries i relay addrs (find_record i c.records) in
      let same = merged-endpoint i relay addrs c.records in
      (
        z,
        name,
        more,
        subst (λ j. N.z32_id j ≡ ok z) same q,
        t,
        subst (λ es. Memᴰ (record { name = name; rdata = txt es }) out) starts
            (is_record-Memᴰ name (txt_entries m) out there),
        all_addrs,
      )
