-- ===== src/Heartbeat/Agent/Refresh.antt =====
-- Which projects have a loop after `refresh_projects`.
use datum_connect.Base.{
  ℕ, ◌≡◌, refl, ◌∙◌, inl, inr, Bool, true, false, not, ◌&&◌, ◌||◌, none, List, [], ◌∷◌, map, arith,
  if◌then◌else◌, ◌==◌, option_eq, nat_eq, text_eq, Bool-cases, Result, ok, err,
}
use mathlib.Core.List.{flatten}
use datum_connect.Text.{Text}
use datum_connect.Heartbeat.Agent.Keys.{
  UniqueKeys, contains_key-remove_key_of_ne, contains_key-remove_key_self, remove_key-UniqueKeys,
}
use datum_connect.Heartbeat.Agent.{
  HeartbeatAgent, member, contains_key, remove_key, register_project, deregister_project, to_set,
  same_set, stop_missing, start_probed, refresh_projects,
}

-- The probe found a connector.
abbrev pub found : Result Bool → Bool
found (ok b) = b
found (err e) = false

contains_key-register_project :
    (a : HeartbeatAgent) (k j : Text)
    → contains_key j (register_project a k).projects ≡ (k == j || contains_key j a.projects)
unfolding register_project
contains_key-register_project a k j = ground arith

remove_key-eq-none :
    (k : Text) (m : List (Text × ℕ)) → (remove_key k m).1 ≡ none → contains_key k m ≡ false
unfolding remove_key
remove_key-eq-none k [] h = refl
remove_key-eq-none k ((i, t) ∷ m) h = ground (arith, remove_key-eq-none k m)

deregister_project_lem :
    (a : HeartbeatAgent) (k j : Text)
    → UniqueKeys a.projects
    → UniqueKeys (deregister_project a k).projects
      × (contains_key j (deregister_project a k).projects
          ≡ (contains_key j a.projects && not (k == j)))
unfolding deregister_project
deregister_project_lem a k j u = ground (
  arith,
  remove_key-eq-none k a.projects,
  remove_key-UniqueKeys k a.projects u,
  contains_key-remove_key_self k a.projects u,
  contains_key-remove_key_of_ne k j a.projects,
)

stop_missing_lem :
    (next running : List Text) (a : HeartbeatAgent) (j : Text)
    → UniqueKeys a.projects
    → contains_key j (stop_missing next running a).projects
      ≡ (contains_key j a.projects && (member j next || not (member j running)))
unfolding stop_missing
stop_missing_lem next [] a j u = ground arith
stop_missing_lem next (k ∷ running) a j u =
    stop_missing_lem next running (if member k next then a else deregister_project a k) j kept
    ∙ ground (arith, deregister_project_lem a k j u)
  where
    kept : UniqueKeys (if member k next then a else deregister_project a k).projects
    kept = elim (Bool-cases (member k next)) [
      | inl e ↦ rw e u
      | inr e ↦ rw e (deregister_project_lem a k j u).0
    ]

start_probed_lem :
    (probe : Text → Result Bool) (next : List Text) (a : HeartbeatAgent) (j : Text)
    → contains_key j (start_probed probe next a).projects
      ≡ (contains_key j a.projects || (member j next && found (probe j)))
unfolding start_probed
start_probed_lem probe [] a j = ground arith
start_probed_lem probe (k ∷ next) a j =
    start_probed_lem probe next _ j ∙ ground (arith, contains_key-register_project a k j)

member-keys : (j : Text) (m : List (Text × ℕ)) → member j (map (λ e. e.0) m) ≡ contains_key j m
member-keys j [] = refl
member-keys j (e ∷ m) = ground (arith, member-keys j m)

member-to_set : (j : Text) (ks : List Text) → member j (to_set ks) ≡ member j ks
unfolding to_set
member-to_set j [] = refl
member-to_set j (k ∷ ks) = ground (arith, member-to_set j ks)

-- Where the cloud reports another set of projects than the last one, a project has a loop after a
-- refresh exactly if it is among those reported, and had a loop already or has a connector that the
-- probe found.
pub refresh_projects_lem :
    (orgs : List (List Text)) (probe : Text → Result Bool) (a : HeartbeatAgent) (j : Text)
    → UniqueKeys a.projects
    → same_set a.known_projects (to_set (flatten orgs)) ≡ false
    → contains_key j (refresh_projects (ok orgs) probe a).0.projects
      ≡ (member j (flatten orgs) && (contains_key j a.projects || found (probe j)))
unfolding refresh_projects
refresh_projects_lem orgs probe a j u changed =
    let next = to_set (flatten orgs) in
    let a' = record a { known_projects = next } in
    rw (changed, refresh_projects)
      (start_probed_lem probe next _ j
        ∙ ground (
          arith,
          stop_missing_lem next (map (λ e. e.0) a.projects) a' j u,
          member-keys j a.projects,
          member-to_set j (flatten orgs),
        ))

-- A reply that reports the same set, or an error, leaves the agent as it was.
pub refresh_projects_unchanged :
    (orgs : Result (List (List Text))) (probe : Text → Result Bool) (a : HeartbeatAgent)
    → ((list : List (List Text))
        → orgs ≡ ok list
        → same_set a.known_projects (to_set (flatten list)) ≡ true)
    → (refresh_projects orgs probe a).0 ≡ a
unfolding refresh_projects
refresh_projects_unchanged (err e) probe a h = refl
refresh_projects_unchanged (ok orgs) probe a h = rw (h orgs refl)
