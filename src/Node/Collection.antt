-- ===== src/Node/Collection.antt =====
-- The collection of a node's metrics (lib/src/node.rs): the secret of n0des from the environment, the
-- client that is optional, and what they mean for the start of a listening node.
use datum_connect.Base.{
  ◌≡◌, String, Option, none, some, arith, option_eq, nat_eq, text_eq, Result, ok, err, to_option,
}
use datum_connect.Text.{Text}
use datum_connect.Effects.{Effect}
use datum_connect.State.{State}
use datum_connect.Repo.{Bytes, Directory, Yaml, Config}
use datum_connect.Repo.Keys.{Keys}
use datum_connect.Node.Start.{EndpointParts, ListenNode, listen_node}

-- The library iroh_n0des: `ApiSecret::from_str`, and the client for an endpoint of the type E.
pub record N0des (E : Type 0) : Type 1 where
  pub ApiSecret : Type 0
  pub Client : Type 0
  pub from_str : Text → Result ApiSecret
  pub build : E → ApiSecret → Result Client

-- The variable N0DES_API_SECRET, else the value of BUILD_N0DES_API_SECRET when the program was built.
abbrev pub variable : Option Text → Option Text → Option Text
variable (some s) built = some s
variable none built = built

module _ {E : Type 0} (N : N0des E) where
  -- `n0des_api_secret_from_env`
  unfoldable pub n0des_api_secret_from_env : Option Text → Option Text → Result (Option N.ApiSecret)
  n0des_api_secret_from_env env built = elim (variable env built) [
    | none ↦ ok none
    | some s ↦ elim (N.from_str s) [
      | err e ↦ err "Failed to parse n0des API secret from env variable N0DES_API_SECRET"
      | ok secret ↦ ok (some secret)
    ]
  ]

  -- `build_n0des_client_opt`
  unfoldable pub build_n0des_client_opt : E → Option N.ApiSecret → Option N.Client
  build_n0des_client_opt endpoint none = none
  build_n0des_client_opt endpoint (some secret) = to_option (N.build endpoint secret)

module _ (R : Directory) (K : Keys) (Y : Yaml Config) (Z : Yaml State)
    (from_slice : Bytes → Result State) (N : N0des (EndpointParts R K Y Z from_slice)) where
  -- `ListenNode::new`: the node with its client. The connection does not touch the directory.
  unfoldable pub new_listen_node :
      Option Text
      → Option Text
      → K.SecretKey
      → Effect R.Dir (ListenNode R K Y Z from_slice × Option N.Client)
  new_listen_node env built generated d = elim (n0des_api_secret_from_env N env built) [
    | err e ↦ (d, err e)
    | ok secret ↦
        let (d', started) = listen_node R K Y Z from_slice generated d in
        (
          d',
          elim started [
            | err e ↦ err e
            | ok node ↦ ok (node, build_n0des_client_opt N node.endpoint secret)
          ],
        )
  ]

  -- A node starts as it does without the collection, whatever becomes of the connection to n0des.
  pub new_listen_node-started :
      (env built : Option Text) (secret : Option N.ApiSecret) (generated : K.SecretKey)
      (d d' : R.Dir) (node : ListenNode R K Y Z from_slice)
      → n0des_api_secret_from_env N env built ≡ ok secret
      → listen_node R K Y Z from_slice generated d ≡ (d', ok node)
      → new_listen_node env built generated d
        ≡ (d', ok (node, build_n0des_client_opt N node.endpoint secret))
  unfolding new_listen_node
  new_listen_node-started env built secret generated d d' node read started =
      ground (arith, read, started)

  -- A secret that is not understood keeps it from starting, and leaves the directory.
  pub new_listen_node-bad_secret :
      (env built : Option Text) (s : Text) (e : String) (generated : K.SecretKey) (d : R.Dir)
      → variable env built ≡ some s
      → N.from_str s ≡ err e
      → new_listen_node env built generated d
        ≡ (d, err "Failed to parse n0des API secret from env variable N0DES_API_SECRET")
  unfolding new_listen_node n0des_api_secret_from_env
  new_listen_node-bad_secret env built s e generated d there bad = ground arith
