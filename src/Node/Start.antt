-- ===== src/Node/Start.antt =====
-- How a node starts from its directory (lib/src/node.rs): the configuration, the key, the endpoint and,
-- for a listening node, the state. The endpoint is not bound here.
use datum_connect.Base.{
  ◌≡◌, ap, subst, ◌∙◌, ◌≢◌, inl, inr, arith, option_eq, nat_eq, text_eq, Bool-cases, Result, ok,
  err, Result-cases,
}
use datum_connect.Text.{Text, codes}
use datum_connect.Effects.{Effect, ◌>>=◌, pure}
use datum_connect.State.{State, default_state}
use datum_connect.State.Store.{load_state}
use datum_connect.Repo.{
  Bytes, Directory, IsLawful, Same, Yaml, IsYaml, Config, config, default_config,
  load_or_create-there, load_or_create-loads, write_file-Same,
}
use datum_connect.Repo.Keys.{
  Keys, IsKeys, secret_key, listen_key, connect_key, secret_key-Same, secret_key-there,
  secret_key-loads,
}
use datum_connect.Repo.Stores.{state_disk, state_disk-IsLawful}
use datum_connect.Node.Endpoint.{EndpointBuilder, build_endpoint}

module _ (R : Directory) (K : Keys) (Y : Yaml Config) (Z : Yaml State)
    (from_slice : Bytes → Result State) where
  -- What an endpoint is made of
  pub record EndpointParts : Type 0 where
    pub secret_key : K.SecretKey
    pub builder : EndpointBuilder

  pub record ListenNode : Type 0 where
    pub endpoint : EndpointParts
    pub state : State

  abbrev parts : (K.SecretKey → Effect R.Dir K.SecretKey) → K.SecretKey → Effect R.Dir EndpointParts
  parts key generated = do
    common ← config R Y
    secret_key ← key generated
    builder ← pure (build_endpoint common)
    pure (ok (record { secret_key = secret_key; builder = builder }))

  -- `ConnectNode::with_n0des_api_secret`
  unfoldable pub connect_node : K.SecretKey → Effect R.Dir EndpointParts
  connect_node generated = parts (connect_key R K) generated

  -- `Repo::load_state`, of which the node keeps the state
  unfoldable pub loaded_state : Effect R.Dir State
  loaded_state d =
      let (d', w) = load_state (state_disk R Z from_slice) d in
      (d', elim w [ err e ↦ err e | ok s ↦ ok s.inner ])

  -- `ListenNode::with_n0des_api_secret`
  unfoldable pub listen_node : K.SecretKey → Effect R.Dir ListenNode
  unfolding loaded_state
  listen_node generated = do
    endpoint ← parts (listen_key R K) generated
    state ← loaded_state
    pure (ok (record { endpoint = endpoint; state = state }))

  loaded_state-Same :
      IsLawful R
      → (other : Text) (d : R.Dir) → codes "state.yml" ≢ other
      → Same R other (loaded_state d).0 d
  unfolding loaded_state load_state
  loaded_state-Same L other d n =
      let kept = write_file-Same R L Z default_state (codes "state.yml") other d n in
      record {
        same_exists = ground (arith, kept.same_exists);
        same_read = ground (arith, kept.same_read);
        same_text = ground (arith, kept.same_text);
      }

  loaded_state-again :
      IsLawful R
      → ((s : State) (t : Text) → Z.to_string s ≡ ok t → from_slice (R.as_bytes t) ≡ ok s)
      → (d d' : R.Dir) (s : State) → loaded_state d ≡ (d', ok s)
      → loaded_state d' ≡ (d', ok s)
  unfolding loaded_state load_state
  loaded_state-again L I d d' s h =
      let D = state_disk-IsLawful R L Z from_slice I in
      elim (Bool-cases (R.exists (codes "state.yml") d)) [
        | inl e ↦ ground arith
        | inr e ↦ ground (arith, D.exists-write default_state d, D.read-write default_state d)
      ]

  parts-steps :
      (key : K.SecretKey → Effect R.Dir K.SecretKey) (g : K.SecretKey) (d d' : R.Dir)
      (p : EndpointParts)
      → parts key g d ≡ (d', ok p)
      → (d1 : R.Dir) × (c : Config) × (config R Y d ≡ (d1, ok c))
        × (key g d1 ≡ (d', ok p.secret_key))
        × (build_endpoint c ≡ ok p.builder)
  parts-steps key g d d' p h = elim (Result-cases (config R Y d).1) [
    | inr (m, q) ↦ ground arith
    | inl (c, q) ↦ elim (Result-cases (key g (config R Y d).0).1) [
      | inr (m, r) ↦ ground arith
      | inl (k, r) ↦ elim (Result-cases (build_endpoint c)) [
        | inr (m, s) ↦ ground arith
        | inl (b, s) ↦ ((config R Y d).0, c, ground arith, ground arith, ground arith)
      ]
    ]
  ]

  listen_node-steps :
      (g : K.SecretKey) (d d' : R.Dir) (n : ListenNode)
      → listen_node g d ≡ (d', ok n)
      → (d2 : R.Dir) × (parts (listen_key R K) g d ≡ (d2, ok n.endpoint))
        × (loaded_state d2 ≡ (d', ok n.state))
  unfolding listen_node
  listen_node-steps g d d' n h = elim (Result-cases (parts (listen_key R K) g d).1) [
    | inr (m, q) ↦ ground arith
    | inl (p, q) ↦ elim (Result-cases (loaded_state (parts (listen_key R K) g d).0).1) [
      | inr (m, r) ↦ ground arith
      | inl (s, r) ↦ ((parts (listen_key R K) g d).0, ground arith, ground arith)
    ]
  ]

  Same-trans : (name : Text) (a b c : R.Dir) → Same R name a b → Same R name b c → Same R name a c
  Same-trans name a b c s t = record {
    same_exists = s.same_exists ∙ t.same_exists;
    same_read = s.same_read ∙ t.same_read;
    same_text = s.same_text ∙ t.same_text;
  }

  abbrev named_key : Text → K.SecretKey → Effect R.Dir K.SecretKey
  named_key name generated = secret_key R K generated name

  -- From a directory in which the configuration and the key are as they were left, they are got again.
  parts-again :
      IsLawful R
      → IsKeys K
      → IsYaml Y
      → (name : Text) (g later : K.SecretKey) (d d' e : R.Dir) (p : EndpointParts)
      → name ≢ codes "config.yml"
      → parts (named_key name) g d ≡ (d', ok p)
      → Same R (codes "config.yml") e d'
      → Same R name e d'
      → parts (named_key name) later e ≡ (e, ok p)
  parts-again L I J name g later d d' e p n h sc sk =
      let (d1, c, q, r, b) = parts-steps (named_key name) g d d' p h in
      let (x, f) =
        load_or_create-there R L Y J "reading config file" "parsing config file" default_config c
          (codes "config.yml") d d1 q in
      let (y, bytes, u, v) = secret_key-there R K L I g p.secret_key name d1 d' r in
      let kept = secret_key-Same R K L g name (codes "config.yml") d1 n in
      let got =
        load_or_create-loads R Y "reading config file" "parsing config file" default_config c
          (codes "config.yml") d1 e
          (Same-trans (codes "config.yml") e d' d1 sc
            (subst (λ z. Same R (codes "config.yml") z d1) (ap (λ w. w.0) r) kept))
          x f in
      let key = secret_key-loads R K later p.secret_key bytes name d' e sk y u v in
      ground (arith, got, key, b)

  -- A node that has started starts again, from the directory that it left, with the same key, endpoint
  -- and proxies, and leaves the directory as it is.
  pub listen_node-again :
      IsLawful R
      → IsKeys K
      → IsYaml Y
      → ((s : State) (t : Text) → Z.to_string s ≡ ok t → from_slice (R.as_bytes t) ≡ ok s)
      → (drawn later : K.SecretKey) (d d' : R.Dir) (n : ListenNode)
      → listen_node drawn d ≡ (d', ok n)
      → listen_node later d' ≡ (d', ok n)
  unfolding listen_node
  listen_node-again L I J M drawn later d d' n h =
      let (d2, p, s) = listen_node-steps drawn d d' n h in
      let kept : (other : Text) → codes "state.yml" ≢ other → Same R other d' d2 = λ other o.
        subst (λ z. Same R other z d2) (ap (λ w. w.0) s) (loaded_state-Same L other d2 o) in
      let again =
        parts-again L I J (codes "listen_key") drawn later d d2 d' n.endpoint (λ q. ground arith) p
          (kept (codes "config.yml") (λ q. ground arith))
          (kept (codes "listen_key") (λ q. ground arith)) in
      ground (arith, again, loaded_state-again L M d2 d' n.state s)
