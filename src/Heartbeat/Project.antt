-- ===== src/Heartbeat/Project.antt =====
-- `run_project`: the loop that keeps the connector of one project up to date and renews its lease.
-- The replies of the control plane in one round, the details of the node and the number that is
-- drawn are a `World`; the JSON library is a type of values with its conversion.
pub mod Rounds
pub mod Waits
use datum_connect.Base.{
  option_eq, ℕ, zero, suc, ◌+◌, ◌-◌, ◌*◌, ◌/◌, ◌%◌, ◌^◌, ◌≤◌, ◌<◌, min, max, String, ◌≡◌, refl, sym,
  ap, subst, ◌∙◌, ◌≢◌, ◌↔◌, ◌⊎◌, inl, inr, Bool, true, false, not, ◌&&◌, ◌||◌, Option, none, some,
  List, [], ◌∷◌, ◌++◌, map, arith, if◌then◌else◌, Eq, ◌==◌, ==_refl, eq_of_==, option_eq, nat_eq,
  text_eq, Bool-cases, ltb, leb, u16_max, u32_max, u64_mod, ltb→lt, lt→ltb, leb→le, le→leb, tests,
  length, any, all, find, keep, All, Option-cases, length-append, find-test, find-eq-none, Result,
  ok, err, ◌>>=◌, ◌>>◌, context, std_context, to_option, is_ok,
}
use datum_connect.Base.Int.{ℤ}
use datum_connect.Text.{Text}
use datum_connect.Connection.{first}
use datum_connect.Resources.{
  ObjectMeta, Connector, ConnectorStatus, ConnectorConnectionDetails,
  ConnectorConnectionDetailsPublicKey, Lease,
}
use datum_connect.Heartbeat.{
  Backoff, new_backoff, next, reset, renewal_interval, default_lease_duration_secs,
}

-- `status.lease_ref.name`
pub lease_ref_name : Connector → Option Text
lease_ref_name c = elim c.status [
  | none ↦ none
  | some s ↦ elim s.lease_ref [ none ↦ none | some r ↦ some r.name ]
]

abbrev relay_of : Option ConnectorConnectionDetails → Option Text
relay_of none = none
relay_of (some d) = elim d.public_key [ none ↦ none | some k ↦ some k.home_relay ]

-- `status.connection_details.public_key.home_relay`
pub home_relay : Connector → Option Text
home_relay c = elim c.status [ none ↦ none | some s ↦ relay_of s.connection_details ]

-- `find_connector`, on the reply of the list call
pub find_connector : Result (List Connector) → Result (Option Connector)
find_connector (err e) = err "failed to list connectors"
find_connector (ok items) = ok (first items)

-- The replies to the calls of one round.
pub record World : Type 0 where
  -- `project_control_plane_client`
  pub pcp : Result (Unit {0})
  -- `connectors.list` by the endpoint id
  pub listed : Result (List Connector)
  -- `connectors.get`
  pub connector : Text → Result Connector
  -- `provider.connection_details`
  pub details : Option Text → Option ConnectorConnectionDetails
  -- `connectors.patch_status`
  pub patched : Result (Unit {0})
  -- `leases.get`
  pub lease : Text → Result Lease
  -- `leases.patch`
  pub renewed : Result (Unit {0})
  pub random_range : ℕ → ℕ

-- `lease.spec.lease_duration_seconds`
unfoldable pub lease_duration : Lease → Option ℤ
lease_duration l = elim l.spec [ none ↦ none | some s ↦ s.lease_duration_seconds ]

-- What is taken from the libraries: JSON values with their equality and the conversion
-- `serde_json::to_value`, and the name that kube gives an object.
pub record Libraries : Type 1 where
  pub Value : Type 0
  pub value_eq : Eq Value
  pub to_value : ConnectorConnectionDetails → Result Value
  pub name_any : ObjectMeta → Text

module _ (libs : Libraries) where
  open libs use {Value, to_value, name_any}

  pub record ConnectorCache : Type 0 where
    pub name : Text
    pub lease_name : Option Text
    pub lease_duration_seconds : Option ℤ
    pub last_details : Option Value
    pub last_home_relay : Option Text

  -- The variables of the loop.
  pub record Loop : Type 0 where
    pub backoff : Backoff
    pub cache : Option ConnectorCache

  -- The writing calls of a round.
  pub data Call : Type 0 where
    patch_status : Text → Value → Call
    renew_lease : Text → Call

  -- The loop's variables after a round, how long it sleeps and what it wrote.
  pub record Outcome : Type 0 where
    pub state : Loop
    pub sleep : ℕ
    pub calls : List Call

  -- `sleep_with_cancel(backoff.next(), &cancel); continue`
  pub give_up : Backoff → Option ConnectorCache → List Call → Outcome
  unfolding next
  give_up b cache calls = record {
    state = record { backoff = (next b).0; cache = cache };
    sleep = (next b).1;
    calls = calls;
  }

  -- The round from the renewal on.
  pub renew : World → Backoff → ConnectorCache → Text → List Call → Outcome
  unfolding give_up reset
  renew w b cached lease_name calls = elim w.renewed [
    | err _ ↦ give_up b (some cached) (calls ++ renew_lease lease_name ∷ [])
    | ok _ ↦ record {
      state = record { backoff = reset b; cache = some cached };
      sleep =
          renewal_interval w.random_range (elim cached.lease_duration_seconds [
            | none ↦ default_lease_duration_secs
            | some d ↦ d
          ]);
      calls = calls ++ renew_lease lease_name ∷ [];
    }
  ]

  -- From the look at the lease on. `lease_name` is set here.
  pub with_lease : World → Backoff → ConnectorCache → List Call → Outcome
  unfolding renew lease_duration
  with_lease w b cached calls = elim cached.lease_name [
    | none ↦ give_up b (some cached) calls
    | some lease_name ↦ elim cached.lease_duration_seconds [
      | some _ ↦ renew w b cached lease_name calls
      | none ↦ elim (w.lease lease_name) [
        | err _ ↦ give_up b (some cached) calls
        | ok lease ↦
            renew w b (record cached { lease_duration_seconds = lease_duration lease }) lease_name
              calls
      ]
    ]
  ]

  -- The patch of the details, if they are not those that were sent last.
  pub send : World → Backoff → ConnectorCache → Value → Outcome
  unfolding with_lease
  send w b cached details_value =
      if ◌==◌ ⦃e = option_eq ⦃e = libs.value_eq⦄⦄ cached.last_details (some details_value)
      then with_lease w b cached []
      else elim w.patched [
        | err _ ↦ with_lease w b cached (patch_status cached.name details_value ∷ [])
        | ok _ ↦
            with_lease w b (record cached { last_details = some details_value })
              (patch_status cached.name details_value ∷ [])
      ]

  -- From the connection details on.
  pub report : World → Backoff → ConnectorCache → Outcome
  unfolding send
  report w b cached = elim (w.details cached.last_home_relay) [
    | none ↦ give_up b (some cached) []
    | some details ↦ elim (to_value details) [
      | err _ ↦ give_up b (some cached) []
      | ok details_value ↦ send w b cached details_value
    ]
  ]

  -- From the cached connector on: its lease is looked up if it is not known yet.
  pub with_connector : World → Backoff → ConnectorCache → Outcome
  unfolding report lease_ref_name home_relay
  with_connector w b cached = elim cached.lease_name [
    | some _ ↦ report w b cached
    | none ↦ elim (w.connector cached.name) [
      | err _ ↦ give_up b none []
      | ok connector ↦ elim (lease_ref_name connector) [
        | none ↦ give_up b (some cached) []
        | some lease_name ↦
            report w b (record cached {
              lease_name = some lease_name;
              last_home_relay = home_relay connector;
            })
      ]
    ]
  ]

  pub cache_of : Connector → ConnectorCache
  unfolding lease_ref_name home_relay
  cache_of connector = record {
    name = name_any connector.metadata;
    lease_name = lease_ref_name connector;
    lease_duration_seconds = none;
    last_details = none;
    last_home_relay = home_relay connector;
  }

  locate : World → Backoff → Option ConnectorCache → Outcome
  unfolding with_connector cache_of find_connector
  locate w b (some cached) = with_connector w b cached
  locate w b none = elim (find_connector w.listed) [
    | err _ ↦ give_up b none []
    | ok found ↦ elim found [
      | none ↦ give_up b none []
      | some connector ↦ with_connector w (reset b) (cache_of connector)
    ]
  ]

  -- One round of the loop.
  pub round : World → Loop → Outcome
  unfolding locate
  round w l = elim w.pcp [
    | err _ ↦ give_up l.backoff l.cache []
    | ok _ ↦ locate w l.backoff l.cache
  ]

  -- The loop over the rounds; the flag says whether the token was cancelled when the round began.
  pub run_project_from : Loop → List (Bool × World) → List Outcome
  run_project_from l [] = []
  run_project_from l ((cancelled, w) ∷ rounds) =
      let o = round w l in
      let later = run_project_from o.state rounds in if cancelled then [] else o ∷ later

  pub run_project : List (Bool × World) → List Outcome
  unfolding run_project_from
  run_project rounds = run_project_from (record { backoff = new_backoff; cache = none }) rounds
