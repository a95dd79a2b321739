-- ===== src/Repo.antt =====
-- lib/src/repo.rs and lib/src/config.rs: the files that the node keeps in one directory. The
-- directory and the YAML library are parameters; a file is named by the last part of its path.
pub mod Keys
pub mod Oauth
pub mod Stores
mod Tests
use datum_connect.Base.{
  ℕ, zero, suc, ◌+◌, ◌-◌, ◌*◌, ◌/◌, ◌%◌, ◌^◌, ◌≤◌, ◌<◌, min, max, String, ◌≡◌, refl, sym, ap, subst,
  ◌∙◌, ◌≢◌, ◌↔◌, ◌⊎◌, inl, inr, Bool, true, false, not, ◌&&◌, ◌||◌, Option, none, some, List, [],
  ◌∷◌, ◌++◌, map, arith, if◌then◌else◌, Eq, ◌==◌, ==_refl, eq_of_==, option_eq, nat_eq, text_eq,
  Bool-cases, ltb, leb, u16_max, u32_max, u64_mod, ltb→lt, lt→ltb, leb→le, le→leb, tests, length,
  any, all, find, keep, skip, take, filter_map, All, Option-cases, length-append, find-test,
  find-eq-none, Result, ok, err, ◌>>=◌, ◌>>◌, context, std_context, to_option, is_ok, Result-cases,
}
use datum_connect.Text.{Text, codes}
use datum_connect.Policy.{Auth, default_auth}

abbrev pub Bytes : Type 0
Bytes = List ℕ

-- `tokio::fs` in the base directory
pub record Directory : Type 1 where
  pub Dir : Type 0
  -- `path.exists()`
  pub exists : Text → Dir → Bool
  pub read : Text → Dir → Result Bytes
  pub read_to_string : Text → Dir → Result Text
  pub write : Text → Bytes → Dir → Dir × Result (Unit {0})
  -- of the base directory itself
  pub create_dir_all : Dir → Dir × Result (Unit {0})
  -- `AsRef<[u8]>` of a `String`
  pub as_bytes : Text → Bytes

-- A file is the same in two directories.
pub record Same (R : Directory) (name : Text) (d d' : R.Dir) : Type 0 where
  pub same_exists : R.exists name d ≡ R.exists name d'
  pub same_read : R.read name d ≡ R.read name d'
  pub same_text : R.read_to_string name d ≡ R.read_to_string name d'

-- A file that was written is there with what was written, a write changes no other file, and the creation of the
-- directory none.
pub record IsLawful (R : Directory) : Type 0 where
  pub exists-write :
      (name : Text) (b : Bytes) (d : R.Dir)
      → (R.write name b d).1 ≡ ok tt
      → R.exists name (R.write name b d).0 ≡ true
  pub read-write :
      (name : Text) (b : Bytes) (d : R.Dir)
      → (R.write name b d).1 ≡ ok tt
      → R.read name (R.write name b d).0 ≡ ok b
  pub read_to_string-write :
      (name text : Text) (d : R.Dir)
      → (R.write name (R.as_bytes text) d).1 ≡ ok tt
      → R.read_to_string name (R.write name (R.as_bytes text) d).0 ≡ ok text
  pub write-Same :
      (name other : Text) (b : Bytes) (d : R.Dir)
      → name ≢ other
      → Same R other (R.write name b d).0 d
  pub create_dir_all-Same : (other : Text) (d : R.Dir) → Same R other (R.create_dir_all d).0 d

-- `serde_yml` for one type
pub record Yaml (A : Type 0) : Type 0 where
  pub to_string : A → Result Text
  pub from_str : Text → Result A

pub record IsYaml {A : Type 0} (Y : Yaml A) : Type 0 where
  pub from_str-to_string : (a : A) (t : Text) → Y.to_string a ≡ ok t → Y.from_str t ≡ ok a

pub data DiscoveryMode : Type 0 where
  default dns hybrid : DiscoveryMode

pub record SocketAddr : Type 0 where
  pub ip : ℕ
  pub port : ℕ

pub record Config : Type 0 where
  pub ipv4_addr : Option SocketAddr
  pub ipv6_addr : Option SocketAddr
  pub discovery_mode : DiscoveryMode
  pub dns_origin : Option Text
  pub dns_resolver : Option SocketAddr

-- `Config::default`
abbrev pub default_config : Config
default_config = record {
  ipv4_addr = none;
  ipv6_addr = none;
  discovery_mode = default;
  dns_origin = none;
  dns_resolver = none;
}

pub record GatewayConfig : Type 0 where
  pub common : Config

abbrev pub default_gateway_config : GatewayConfig
default_gateway_config = record { common = default_config }

module _ (R : Directory) where
  -- `from_file` of the configurations, and the reads of the other YAML files
  abbrev pub from_file : {A : Type 0} → Yaml A → String → String → Text → R.Dir → Result A
  from_file Y reading parsing name d = elim (R.read_to_string name d) [
    | err e ↦ err reading
    | ok text ↦ std_context (Y.from_str text) parsing
  ]

  -- `write` of the configurations, and the writes of the other YAML files
  abbrev pub write_file : {A : Type 0} → Yaml A → A → Text → R.Dir → R.Dir × Result (Unit {0})
  write_file Y a name d = elim (Y.to_string a) [
    | err e ↦ (d, err e)
    | ok text ↦ R.write name (R.as_bytes text) d
  ]

  -- The file's value, after a default has been written if there was no file.
  unfoldable pub load_or_create :
      {A : Type 0} → Yaml A → String → String → A → Text → R.Dir → R.Dir × Result A
  load_or_create Y reading parsing value name d =
      if R.exists name d
      then (d, from_file Y reading parsing name d)
      else (let (d', written) = write_file Y value name d in
          (d', elim written [ err e ↦ err e | ok _ ↦ ok value ]))

  -- `Repo::config`
  abbrev pub config : Yaml Config → R.Dir → R.Dir × Result Config
  config Y =
      load_or_create Y "reading config file" "parsing config file" default_config
        (codes "config.yml")

  -- `Repo::gateway_config`, of the same file
  abbrev pub gateway_config : Yaml GatewayConfig → R.Dir → R.Dir × Result GatewayConfig
  gateway_config Y =
      load_or_create Y "reading config file" "parsing config file" default_gateway_config
        (codes "config.yml")

  -- `Repo::auth`
  abbrev pub auth : Yaml Auth → R.Dir → R.Dir × Result Auth
  auth Y = load_or_create Y "reading auth file" "parsing auth file" default_auth (codes "auth.yml")

  pub from_file-write_file :
      IsLawful R
      → {A : Type 0} (Y : Yaml A) → IsYaml Y
      → (reading parsing : String) (a : A) (name : Text) (d : R.Dir)
      → (write_file Y a name d).1 ≡ ok tt
      → (R.exists name (write_file Y a name d).0 ≡ true)
        × (from_file Y reading parsing name (write_file Y a name d).0 ≡ ok a)
  from_file-write_file L Y I reading parsing a name d h = elim (Result-cases (Y.to_string a)) [
    | inr (e, q) ↦ ground arith
    | inl (t, q) ↦ ground (
      arith,
      L.exists-write name (R.as_bytes t) d,
      L.read_to_string-write name t d,
      I.from_str-to_string a t,
    )
  ]

  pub write_file-Same :
      IsLawful R
      → {A : Type 0} (Y : Yaml A) (a : A) (name other : Text) (d : R.Dir) → name ≢ other
      → Same R other (write_file Y a name d).0 d
  write_file-Same L Y a name other d n = elim (Result-cases (Y.to_string a)) [
    | inr (e, q) ↦ record {
      same_exists = ground arith;
      same_read = ground arith;
      same_text = ground arith;
    }
    | inl (t, q) ↦
        let kept = L.write-Same name other (R.as_bytes t) d n in
        record {
          same_exists = ground (arith, kept.same_exists);
          same_read = ground (arith, kept.same_read);
          same_text = ground (arith, kept.same_text);
        }
  ]

  pub load_or_create-Same :
      IsLawful R
      → {A : Type 0} (Y : Yaml A) (reading parsing : String) (a : A) (name other : Text) (d : R.Dir)
      → name ≢ other
      → Same R other (load_or_create Y reading parsing a name d).0 d
  unfolding load_or_create
  load_or_create-Same L Y reading parsing a name other d n =
      let kept = write_file-Same L Y a name other d n in
      record {
        same_exists = ground (arith, kept.same_exists);
        same_read = ground (arith, kept.same_read);
        same_text = ground (arith, kept.same_text);
      }

  -- The file is there with the value that was returned.
  pub load_or_create-there :
      IsLawful R
      → {A : Type 0} (Y : Yaml A) → IsYaml Y
      → (reading parsing : String) (value a : A) (name : Text) (d d' : R.Dir)
      → load_or_create Y reading parsing value name d ≡ (d', ok a)
      → (R.exists name d' ≡ true) × (from_file Y reading parsing name d' ≡ ok a)
  unfolding load_or_create
  load_or_create-there L Y I reading parsing value a name d d' h =
      elim (Bool-cases (R.exists name d)) [
        | inl e ↦ ground arith
        | inr e ↦ ground (arith, from_file-write_file L Y I reading parsing value name d)
      ]

  pub load_or_create-loads :
      {A : Type 0} (Y : Yaml A) (reading parsing : String) (value a : A) (name : Text)
      (d d' : R.Dir)
      → Same R name d' d
      → R.exists name d ≡ true
      → from_file Y reading parsing name d ≡ ok a
      → load_or_create Y reading parsing value name d' ≡ (d', ok a)
  unfolding load_or_create
  load_or_create-loads Y reading parsing value a name d d' s e f =
      ground (arith, s.same_exists, s.same_text)

  -- A value that was loaded or made is what every later load returns, from the same directory.
  pub load_or_create-again :
      IsLawful R
      → {A : Type 0} (Y : Yaml A) → IsYaml Y
      → (reading parsing : String) (value a : A) (name : Text) (d d' : R.Dir)
      → load_or_create Y reading parsing value name d ≡ (d', ok a)
      → load_or_create Y reading parsing value name d' ≡ (d', ok a)
  unfolding load_or_create
  load_or_create-again L Y I reading parsing value a name d d' h =
      elim (Bool-cases (R.exists name d)) [
        | inl e ↦ ground arith
        | inr e ↦ ground (arith, from_file-write_file L Y I reading parsing value name d)
      ]
