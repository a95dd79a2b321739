-- ===== src/Heartbeat/Agent/Loops.antt =====
-- Which loops run: one for each registered project, and no loop is left behind.
use datum_connect.Base.{
  ℕ, ◌≡◌, inl, inr, Bool, true, false, not, ◌&&◌, List, [], ◌∷◌, arith, if◌then◌else◌, option_eq,
  nat_eq, text_eq, Bool-cases, ltb, Option-cases, Result, ok, err,
}
use mathlib.Core.List.{flatten}
use datum_connect.Text.{Text}
use datum_connect.Heartbeat.Agent.Keys.{
  has, has_token, UniqueKeys, OwnTokens, OwnTokens-suc, has_token_of_le, remove_key-UniqueKeys,
  remove_key-OwnTokens, has_token-remove_key, has-append,
}
use datum_connect.Heartbeat.Agent.{
  HeartbeatAgent, new_agent, member, contains_key, remove_key, register_project, deregister_project,
  clear_projects, clear_known_projects, to_set, same_set, stop_missing, start_probed,
  refresh_projects, Event, login_missing, refreshes, registers, deregisters, step, run,
}

-- Each loop that was started is either registered under its project and not cancelled, or cancelled
-- and not registered.
pub record Inv (a : HeartbeatAgent) : Type 0 where
  pub keys : UniqueKeys a.projects
  pub tokens : OwnTokens a.spawned a.projects
  pub accounted : (t : ℕ) → has t a.cancelled ≡ (ltb t a.spawned && not (has_token t a.projects))

new_agent-Inv : Inv new_agent
unfolding new_agent
new_agent-Inv = record { keys = tt; tokens = tt; accounted = λ t. ground arith }

register_project-Inv : (a : HeartbeatAgent) (k : Text) → Inv a → Inv (register_project a k)
unfolding register_project
register_project-Inv a k v = elim (Bool-cases (contains_key k a.projects)) [
  | inl e ↦ rw (e, register_project) v
  | inr e ↦
      rw (e, register_project)
        (record {
          keys = (e, v.keys);
          tokens = (
            omega arith,
            has_token_of_le a.spawned a.spawned a.projects v.tokens (omega arith),
            OwnTokens-suc a.spawned a.projects v.tokens,
          );
          accounted =
              λ t. ground (arith, v.accounted t, has_token_of_le t a.spawned a.projects v.tokens);
        })
]

deregister_project-Inv : (a : HeartbeatAgent) (k : Text) → Inv a → Inv (deregister_project a k)
unfolding deregister_project
deregister_project-Inv a k v = elim (Option-cases (remove_key k a.projects).1) [
  | inl e ↦ rw (e, deregister_project) v
  | inr (token, e) ↦
      rw (e, deregister_project)
        (record {
          keys = remove_key-UniqueKeys k a.projects v.keys;
          tokens = remove_key-OwnTokens k a.spawned a.projects v.tokens;
          accounted = λ t. ground (
            arith,
            v.accounted t,
            has_token-remove_key k a.spawned token t a.projects v.tokens e,
          );
        })
]

clear_projects-Inv : (a : HeartbeatAgent) → Inv a → Inv (clear_projects a)
unfolding clear_projects
clear_projects-Inv a v = record {
  keys = tt;
  tokens = tt;
  accounted = λ t. ground (
    arith,
    v.accounted t,
    has-append t a.projects a.cancelled,
    has_token_of_le t a.spawned a.projects v.tokens,
  );
}

stop_missing-Inv :
    (next running : List Text) (a : HeartbeatAgent) → Inv a → Inv (stop_missing next running a)
unfolding stop_missing
stop_missing-Inv next [] a v = v
stop_missing-Inv next (k ∷ running) a v = elim (Bool-cases (member k next)) [
  | inl e ↦ rw e (stop_missing-Inv next running a v)
  | inr e ↦ rw e (stop_missing-Inv next running _ (deregister_project-Inv a k v))
]

start_probed-Inv :
    (probe : Text → Result Bool) (next : List Text) (a : HeartbeatAgent)
    → Inv a
    → Inv (start_probed probe next a)
unfolding start_probed
start_probed-Inv probe [] a v = v
start_probed-Inv probe (k ∷ next) a v = start_probed-Inv probe next _ (branch (probe k))
  where
    probed :
        (r : Result Bool)
        → Inv (elim r [ ok found ↦ if found then register_project a k else a | err e ↦ a ])
    probed (ok true) = register_project-Inv a k v
    probed (ok false) = v
    probed (err e) = v

    branch :
        (r : Result Bool)
        → Inv (
            if contains_key k a.projects
            then a
            else elim r [ ok found ↦ if found then register_project a k else a | err e ↦ a ])
    branch r = elim (Bool-cases (contains_key k a.projects)) [
      | inl e ↦ rw e v
      | inr e ↦ rw e (probed r)
    ]

refresh_projects-Inv :
    (orgs : Result (List (List Text))) (probe : Text → Result Bool) (a : HeartbeatAgent)
    → Inv a
    → Inv (refresh_projects orgs probe a).0
unfolding refresh_projects
refresh_projects-Inv (err e) probe a v = v
refresh_projects-Inv (ok orgs) probe a v =
    elim (Bool-cases (same_set a.known_projects (to_set (flatten orgs)))) [
      | inl e ↦ rw (e, refresh_projects) v
      | inr e ↦
          rw (e, refresh_projects)
            (start_probed-Inv probe _ _ (
              stop_missing-Inv _ _ (record a { known_projects = to_set (flatten orgs) })
                (record { keys = v.keys; tokens = v.tokens; accounted = v.accounted })))
    ]

pub step-Inv : (a : HeartbeatAgent) (e : Event) → Inv a → Inv (step a e)
unfolding step clear_known_projects
step-Inv a login_missing v =
    let c = clear_projects-Inv a v in
    record { keys = c.keys; tokens = c.tokens; accounted = c.accounted }
step-Inv a (refreshes orgs probe) v = refresh_projects-Inv orgs probe a v
step-Inv a (registers k) v = register_project-Inv a k v
step-Inv a (deregisters k) v = deregister_project-Inv a k v

run-Inv : (a : HeartbeatAgent) (es : List Event) → Inv a → Inv (run a es)
unfolding run
run-Inv a [] v = v
run-Inv a (e ∷ es) v = run-Inv (step a e) es (step-Inv a e v)

-- After any sequence of logins, refreshes, registrations and removals each project has at most one
-- loop, no two loops share a token, and a token that was made is cancelled exactly if no registered
-- project holds it: no loop is left running without an entry, and none that has one is cancelled.
pub run-new_agent-Inv : (es : List Event) → Inv (run new_agent es)
run-new_agent-Inv es = run-Inv new_agent es new_agent-Inv
