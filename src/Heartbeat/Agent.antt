-- ===== src/Heartbeat/Agent.antt =====
-- `HeartbeatAgent`: the loops that run, one for each project with a connector.
-- A cancellation token is the number of its creation; the tokens on which `cancel` was called are
-- recorded. Sets and maps are lists, in an order that the theorems leave open. The replies of the
-- cloud, the organisations with their projects and the outcome of each probe, are arguments. The
-- calls of one event run to their end before the next event.
pub mod Keys
pub mod Loops
pub mod Refresh
use datum_connect.Base.{
  ℕ, zero, suc, ◌+◌, ◌-◌, ◌*◌, ◌/◌, ◌%◌, ◌^◌, ◌≤◌, ◌<◌, min, max, String, ◌≡◌, refl, sym, ap, subst,
  ◌∙◌, ◌≢◌, ◌↔◌, ◌⊎◌, inl, inr, Bool, true, false, not, ◌&&◌, ◌||◌, Option, none, some, List, [],
  ◌∷◌, ◌++◌, map, arith, if◌then◌else◌, Eq, ◌==◌, ==_refl, eq_of_==, option_eq, nat_eq, text_eq,
  Bool-cases, ltb, leb, u16_max, u32_max, u64_mod, ltb→lt, lt→ltb, leb→le, le→leb, tests, length,
  any, all, find, keep, All, Option-cases, length-append, find-test, find-eq-none, Result, ok, err,
  ◌>>=◌, ◌>>◌, context, std_context, to_option, is_ok,
}
use mathlib.Core.List.{flatten}
use datum_connect.Text.{Text}

pub record HeartbeatAgent : Type 0 where
  -- project id and cancellation token
  pub projects : List (Text × ℕ)
  pub known_projects : List Text
  -- the number of loops started so far
  pub spawned : ℕ
  pub cancelled : List ℕ

-- `HeartbeatAgent::new`
pub new_agent : HeartbeatAgent
new_agent = record { projects = []; known_projects = []; spawned = 0; cancelled = [] }

abbrev pub member : Text → List Text → Bool
member k ks = any (λ j. j == k) ks

-- `projects.contains_key`
abbrev pub contains_key : Text → List (Text × ℕ) → Bool
contains_key k m = any (λ e. e.0 == k) m

-- `projects.remove`
pub remove_key : Text → List (Text × ℕ) → List (Text × ℕ) × Option ℕ
remove_key k [] = ([], none)
remove_key k ((j, t) ∷ m) =
    let rest = remove_key k m in if j == k then (m, some t) else ((j, t) ∷ rest.0, rest.1)

pub register_project : HeartbeatAgent → Text → HeartbeatAgent
register_project a k =
    if contains_key k a.projects
    then a
    else record a { projects = (k, a.spawned) ∷ a.projects; spawned = a.spawned + 1 }

pub deregister_project : HeartbeatAgent → Text → HeartbeatAgent
unfolding remove_key
deregister_project a k =
    let (rest, removed) = remove_key k a.projects in
    elim removed [
      | none ↦ a
      | some token ↦ record a { projects = rest; cancelled = token ∷ a.cancelled }
    ]

-- `projects.drain()` with a `cancel` for each
pub clear_projects : HeartbeatAgent → HeartbeatAgent
clear_projects a = record a { projects = []; cancelled = map (λ e. e.1) a.projects ++ a.cancelled }

pub clear_known_projects : HeartbeatAgent → HeartbeatAgent
clear_known_projects a = record a { known_projects = [] }

-- `HashSet::insert` for each of the ids
unfoldable pub to_set : List Text → List Text
to_set [] = []
to_set (k ∷ ks) = let rest = to_set ks in if member k rest then rest else k ∷ rest

-- `HashSet == HashSet`
unfoldable pub same_set : List Text → List Text → Bool
same_set ks js = all (λ k. member k js) ks && all (λ j. member j ks) js

-- The loop over the running projects.
pub stop_missing : List Text → List Text → HeartbeatAgent → HeartbeatAgent
stop_missing next [] a = a
stop_missing next (k ∷ running) a =
    stop_missing next running (if member k next then a else deregister_project a k)

-- The loop over the next projects; the outcome of `probe_connector` is asked only for a project
-- that has no loop.
pub start_probed : (Text → Result Bool) → List Text → HeartbeatAgent → HeartbeatAgent
start_probed probe [] a = a
start_probed probe (k ∷ next) a = start_probed probe next (
    if contains_key k a.projects
    then a
    else elim (probe k) [ ok found ↦ if found then register_project a k else a | err e ↦ a ])

-- `orgs` is the reply of `orgs_and_projects`: for each organisation the ids of its projects.
pub refresh_projects :
    Result (List (List Text))
    → (Text → Result Bool)
    → HeartbeatAgent
    → HeartbeatAgent × Result (Unit {0})
unfolding same_set
refresh_projects (err e) probe a = (a, err e)
refresh_projects (ok orgs) probe a =
    let next = to_set (flatten orgs) in
    if same_set a.known_projects next
    then (a, ok tt)
    else (let a' = record a { known_projects = next } in
        (start_probed probe next (stop_missing next (map (λ e. e.0) a'.projects) a'), ok tt))

-- What the agent is told: by the watches of `start`, and by the hooks of the user interface.
pub data Event : Type 0 where
  login_missing : Event
  refreshes : Result (List (List Text)) → (Text → Result Bool) → Event
  registers deregisters : Text → Event

pub step : HeartbeatAgent → Event → HeartbeatAgent
step a login_missing = clear_known_projects (clear_projects a)
step a (refreshes orgs probe) = (refresh_projects orgs probe a).0
step a (registers k) = register_project a k
step a (deregisters k) = deregister_project a k

pub run : HeartbeatAgent → List Event → HeartbeatAgent
run a [] = a
run a (e ∷ es) = run (step a e) es
