-- ===== src/Repo/Tests.antt =====
-- A directory in memory, and instances of the theorems on the files.
use datum_connect.Base.{
  ℕ, ◌≡◌, refl, ◌≢◌, Bool, true, false, Option, none, some, [], ◌∷◌, arith, if◌then◌else◌, ◌==◌,
  ==_refl, option_eq, nat_eq, text_eq, Option-cases, Result, ok, err,
}
use datum_connect.Text.{Text, codes}
use datum_connect.Login.{AuthState}
use datum_connect.State.{State, default_state}
use datum_connect.State.Store
use datum_connect.State.Store.{load_state}
use datum_connect.Node.Endpoint.{build_endpoint}
use datum_connect.Node.Start.{ListenNode, listen_node, loaded_state, listen_node-again}
use datum_connect.Repo.{
  Bytes, Directory, IsLawful, Yaml, IsYaml, Config, default_config, default, dns, hybrid,
  load_or_create,
}
use datum_connect.Repo.Keys.{Keys, IsKeys, secret_key}
use datum_connect.Repo.Oauth.{
  write_oauth_for_key, read_oauth_for_key, read_oauth_for_key-write, read_oauth_for_key-other,
}
use datum_connect.Repo.Stores.{state_disk, state_disk-IsLawful}

-- A file's bytes by its name
abbrev Files : Type 0
Files = Text → Option Bytes

abbrev content : Option Bytes → Result Bytes
content none = err "no such file"
content (some b) = ok b

abbrev there : Option Bytes → Bool
there none = false
there (some b) = true

abbrev memory : Directory
memory = record {
  Dir = Files;
  exists = λ n d. there (d n);
  read = λ n d. content (d n);
  read_to_string = λ n d. content (d n);
  write = λ n b d. ((λ m. if n == m then some b else d m), ok tt);
  create_dir_all = λ d. (d, ok tt);
  as_bytes = λ t. t;
}

memory-IsLawful : IsLawful memory
memory-IsLawful = record {
  exists-write = λ n b d h. ground (arith, ==_refl n);
  read-write = λ n b d h. ground (arith, ==_refl n);
  read_to_string-write = λ n t d h. ground (arith, ==_refl n);
  write-Same = λ n m b d h. record {
    same_exists = ground arith;
    same_read = ground arith;
    same_text = ground arith;
  };
  create_dir_all-Same = λ m d. record { same_exists = refl; same_read = refl; same_text = refl };
}

-- Keys of 32 equal bytes
abbrev repeated : ℕ → Bytes
repeated k =
    k ∷ k ∷ k ∷ k ∷ k ∷ k ∷ k ∷ k ∷ k ∷ k ∷ k ∷ k ∷ k ∷ k ∷ k ∷ k ∷ k ∷ k ∷ k ∷ k ∷ k ∷ k ∷ k ∷ k
    ∷ k ∷ k ∷ k ∷ k ∷ k ∷ k ∷ k ∷ k ∷ []

abbrev head_or : Bytes → ℕ
head_or [] = 0
head_or (b ∷ bs) = b

abbrev keys : Keys
keys = record { SecretKey = ℕ; to_bytes = repeated; from_bytes = head_or }

keys-IsKeys : IsKeys keys
keys-IsKeys = record { length-to_bytes = λ k. refl; from_bytes-to_bytes = λ k. refl }

abbrev no_files : Files
no_files name = none

draws :
    secret_key memory keys 5 (codes "listen_key") no_files
    ≡ ((memory.write (codes "listen_key") (repeated 5) no_files).0, ok 5)
unfolding secret_key
draws = refl

-- A print for no session alone, as logging out writes it
abbrev print_none : Option AuthState → Result Text
print_none none = ok (codes "null")
print_none (some s) = err "unsupported"

abbrev yaml : Yaml (Option AuthState)
yaml = record { to_string = print_none; from_str = λ t. ok none }

yaml-IsYaml : IsYaml yaml
yaml-IsYaml = record { from_str-to_string = λ s t h. ground (arith, Option-cases s) }

-- The directory of an old installation
abbrev legacy : Files
legacy name = if codes "oauth.yml" == name then some (codes "old") else none

read_oauth_for_key-write_example :
    read_oauth_for_key memory yaml
      (codes "staging")
      (write_oauth_for_key memory yaml (codes "staging") none legacy).0
    ≡ ok none
read_oauth_for_key-write_example =
    read_oauth_for_key-write memory yaml memory-IsLawful yaml-IsYaml (codes "staging") none legacy
      refl

production_is_not_staging : codes "production" ≢ codes "staging"
production_is_not_staging = λ h. ground arith

read_oauth_for_key-other_example :
    read_oauth_for_key memory yaml
      (codes "staging")
      (write_oauth_for_key memory yaml (codes "production") none legacy).0
    ≡ read_oauth_for_key memory yaml (codes "staging") legacy
read_oauth_for_key-other_example =
    read_oauth_for_key-other memory yaml memory-IsLawful (codes "production") (codes "staging") none
      legacy production_is_not_staging

-- A print of the empty state alone
abbrev print_empty : State → Result Text
print_empty s = elim s.proxies [ [] ↦ ok (codes "proxies: []") | _ ∷ _ ↦ err "unsupported" ]

abbrev state_yaml : Yaml State
state_yaml = record { to_string = print_empty; from_str = λ t. ok default_state }

reads_empty : (s : State) (t : Text) → print_empty s ≡ ok t → ok default_state ≡ ok s
reads_empty s t h = ground arith

state_disk-IsLawful_example : Store.IsLawful (state_disk memory state_yaml (λ b. ok default_state))
state_disk-IsLawful_example =
    state_disk-IsLawful memory memory-IsLawful state_yaml (λ b. ok default_state) reads_empty

-- A print of the default configuration alone
abbrev print_config : Config → Result Text
print_config c = elim c.ipv4_addr [
  | some a ↦ err "unsupported"
  | none ↦ elim c.ipv6_addr [
    | some a ↦ err "unsupported"
    | none ↦ elim c.dns_origin [
      | some o ↦ err "unsupported"
      | none ↦ elim c.dns_resolver [
        | some r ↦ err "unsupported"
        | none ↦ elim c.discovery_mode [
          | default ↦ ok (codes "discovery_mode: default")
          | dns ↦ err "unsupported"
          | hybrid ↦ err "unsupported"
        ]
      ]
    ]
  ]
]

abbrev config_yaml : Yaml Config
config_yaml = record { to_string = print_config; from_str = λ t. ok default_config }

config_yaml-IsYaml : IsYaml config_yaml
config_yaml-IsYaml = record { from_str-to_string = λ c t h. ground arith }

abbrev start :
    ℕ
    → Files
    → Files × Result (ListenNode memory keys config_yaml state_yaml (λ b. ok default_state))
start = listen_node memory keys config_yaml state_yaml (λ b. ok default_state)

abbrev started : ListenNode memory keys config_yaml state_yaml (λ b. ok default_state)
started = record {
  endpoint = record {
    secret_key = 5;
    builder = record {
      n0des_discovery = true;
      bind_addr_v4 = none;
      bind_addr_v6 = none;
      dns_resolver = none;
      dns_discovery = none;
    };
  };
  state = default_state;
}

starts : (start 5 no_files).1 ≡ ok started
unfolding listen_node loaded_state load_or_create secret_key load_state build_endpoint nat_eq
    text_eq
starts = refl

listen_node-again_example : start 9 (start 5 no_files).0 ≡ ((start 5 no_files).0, ok started)
listen_node-again_example =
    listen_node-again memory keys config_yaml state_yaml (λ b. ok default_state) memory-IsLawful
      keys-IsKeys config_yaml-IsYaml reads_empty 5 9 no_files (start 5 no_files).0 started
      (λ i. ((start 5 no_files).0, starts i))
