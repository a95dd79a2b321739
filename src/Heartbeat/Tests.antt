-- ===== src/Heartbeat/Tests.antt =====
-- Runs of lib/src/heartbeat.rs on concrete input, and instances of its theorems.
use datum_connect.Base.{
  ℕ, ◌≡◌, refl, Bool, true, false, none, some, List, [], ◌∷◌, arith, if◌then◌else◌, ◌==◌, option_eq,
  nat_eq, text_eq, All, Result, ok, err,
}
use datum_connect.Base.Int.{pos}
use datum_connect.Text.{Text, codes}
use datum_connect.Connection.{EndpointAddr}
use datum_connect.Resources.{ConnectorConnectionDetails, Lease, public_key, dns}
use datum_connect.Heartbeat.{new_backoff, next, renewal_interval}
use datum_connect.Heartbeat.Timing.{waited}
use datum_connect.Heartbeat.Agent.{
  HeartbeatAgent, new_agent, Event, login_missing, refreshes, registers, deregisters, run,
  refresh_projects,
}
use datum_connect.Heartbeat.Agent.Loops.{Inv, run-new_agent-Inv}
use datum_connect.Heartbeat.Agent.Refresh.{refresh_projects_unchanged}
use datum_connect.Heartbeat.Project.{Libraries, World, Loop, ConnectorCache, round, run_project}
use datum_connect.Heartbeat.Project.Waits.{Waits, run_project-Waits}
use datum_connect.Heartbeat.Project.Rounds.{Keeps, round-Keeps}

backoff_fourth : (next (waited 3 new_backoff)).1 ≡ 16
unfolding waited next new_backoff
backoff_fourth = refl

abbrev highest : ℕ → ℕ
highest m = m

-- A lease of one second may run out before it is renewed.
renewal_interval_short : renewal_interval highest (pos 1) ≡ 2
unfolding renewal_interval
renewal_interval_short = refl

abbrev alpha : Text
alpha = codes "alpha"

abbrev beta : Text
beta = codes "beta"

abbrev probe_alpha : Text → Result Bool
probe_alpha k = if k == alpha then ok true else err "no route"

abbrev history : List Event
history =
    refreshes (ok ((alpha ∷ beta ∷ []) ∷ [])) probe_alpha
    ∷ registers beta
    ∷ deregisters alpha
    ∷ registers alpha
    ∷ login_missing
    ∷ []

run-new_agent-Inv_example : Inv (run new_agent history)
run-new_agent-Inv_example = run-new_agent-Inv history

abbrev beta_running : HeartbeatAgent
beta_running = record {
  projects = (beta, 0) ∷ [];
  known_projects = beta ∷ [];
  spawned = 1;
  cancelled = [];
}

refresh_projects_unchanged_example :
    (refresh_projects (err "offline") probe_alpha beta_running).0 ≡ beta_running
refresh_projects_unchanged_example =
    refresh_projects_unchanged (err "offline") probe_alpha beta_running (λ list e. cc)

abbrev endpoint : EndpointAddr
endpoint = record { id = codes "node"; relay_urls = []; ip_addrs = (codes "10.0.0.1", 7000) ∷ [] }

-- JSON values that hold the relay alone.
abbrev relay_only : Libraries
relay_only = record {
  Value = Text;
  value_eq = text_eq;
  to_value = λ d. elim d.public_key [ none ↦ err "no key" | some k ↦ ok k.home_relay ];
  name_any = λ m. elim m.name [ none ↦ [] | some n ↦ n ];
}

abbrev relayed_details : ConnectorConnectionDetails
relayed_details = record {
  connection_type = public_key;
  public_key = some (record {
    id = codes "node";
    discovery_mode = some dns;
    home_relay = codes "relay";
    addresses = [];
  });
}

abbrev thirty : Lease
thirty = record { spec = some (record { lease_duration_seconds = some (pos 30) }) }

abbrev calm : World
calm = record {
  pcp = ok tt;
  listed = ok [];
  connector = λ n. err "gone";
  details = λ fallback. some relayed_details;
  patched = ok tt;
  lease = λ n. ok thirty;
  renewed = ok tt;
  random_range = highest;
}

abbrev known : ConnectorCache relay_only
known = record {
  name = codes "conn";
  lease_name = some (codes "lease");
  lease_duration_seconds = none;
  last_details = none;
  last_home_relay = none;
}

abbrev started : Loop relay_only
started = record { backoff = record { current = 8 }; cache = some known }

run_project-Waits_example :
    All (Waits relay_only) (run_project relay_only ((false, calm) ∷ (true, calm) ∷ []))
run_project-Waits_example =
    run_project-Waits relay_only ((false, calm) ∷ (true, calm) ∷ [])
      ((λ m. omega arith), ((λ m. omega arith), tt))

round-Keeps_example :
    Keeps relay_only (codes "conn") (codes "lease") (round relay_only calm started)
round-Keeps_example = round-Keeps relay_only calm started known (codes "lease") refl refl
