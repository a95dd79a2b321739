-- ===== src/Heartbeat/Project/Waits.antt =====
-- Each round of `run_project` sleeps: the loop never spins.
use datum_connect.Base.{
  ℕ, ◌≤◌, ◌≡◌, refl, Bool, true, false, Option, none, some, List, [], ◌∷◌, arith, option_eq, nat_eq,
  text_eq, All, Result, ok, err,
}
use datum_connect.Text.{Text}
use datum_connect.Heartbeat.{Backoff, next, reset}
use datum_connect.Heartbeat.Timing.{
  IsBackoff, new_backoff-IsBackoff, reset-IsBackoff, renewal_interval_bounds,
}
use datum_connect.Heartbeat.Project.{
  World, Loop, Outcome, Call, ConnectorCache, give_up, renew, with_lease, send, report,
  with_connector, locate, round, run_project_from, run_project, Libraries,
}

-- What is drawn lies in the range that is asked for.
abbrev pub IsDraw : (ℕ → ℕ) → Type 0
IsDraw random_range = (m : ℕ) → random_range m ≤ m

module _ (libs : Libraries) where
  -- The round sleeps a second at least, and leaves a backoff between 2 and 30 seconds.
  pub record Waits (o : Outcome libs) : Type 0 where
    pub backoff : IsBackoff o.state.backoff
    pub sleeps : 1 ≤ o.sleep

  -- `BACKOFF_INITIAL` after a reset or the state after a wait.
  give_up-Waits :
      (b : Backoff) (c : Option (ConnectorCache libs)) (calls : List (Call libs))
      → IsBackoff b
      → Waits (give_up libs b c calls)
  unfolding give_up next
  give_up-Waits b c calls h = omega arith

  module _ (w : World) (d : IsDraw w.random_range) (b : Backoff) (h : IsBackoff b) where
    renewed-Waits :
        (c : ConnectorCache libs) (n : Text) (calls : List (Call libs)) (r : Result (Unit {0}))
        → w.renewed ≡ r
        → Waits (renew libs w b c n calls)
    unfolding renew
    renewed-Waits c n calls (err x) e = rw (e, renew) (give_up-Waits b (some c) _ h)
    renewed-Waits c n calls (ok x) e =
        rw (e, renew)
          (record {
            backoff = reset-IsBackoff b;
            sleeps = (renewal_interval_bounds w.random_range _ d).2;
          })

    renew-Waits :
        (c : ConnectorCache libs) (n : Text) (calls : List (Call libs))
        → Waits (renew libs w b c n calls)
    renew-Waits c n calls = renewed-Waits c n calls w.renewed refl

    with_lease-Waits :
        (c : ConnectorCache libs) (calls : List (Call libs)) → Waits (with_lease libs w b c calls)
    unfolding with_lease
    with_lease-Waits c calls = grind (arith, give_up-Waits, renew-Waits)

    send-Waits : (c : ConnectorCache libs) (v : libs.Value) → Waits (send libs w b c v)
    unfolding send
    send-Waits c v = grind (arith, with_lease-Waits)

    report-Waits : (c : ConnectorCache libs) → Waits (report libs w b c)
    unfolding report
    report-Waits c = grind (arith, give_up-Waits, send-Waits)

    with_connector-Waits : (c : ConnectorCache libs) → Waits (with_connector libs w b c)
    unfolding with_connector
    with_connector-Waits c = grind (arith, give_up-Waits, report-Waits)

  locate-Waits :
      (w : World) (b : Backoff) (cache : Option (ConnectorCache libs))
      → IsDraw w.random_range
      → IsBackoff b
      → Waits (locate libs w b cache)
  unfolding locate
  locate-Waits w b (some c) d h = with_connector-Waits w d b h c
  locate-Waits w b none d h =
      grind (arith, give_up-Waits, with_connector-Waits w d (reset b) (reset-IsBackoff b), h)

  -- Every round sleeps a second at least, and keeps the backoff between 2 and 30 seconds.
  pub round-Waits :
      (w : World) (l : Loop libs)
      → IsDraw w.random_range
      → IsBackoff l.backoff
      → Waits (round libs w l)
  unfolding round
  round-Waits w l d h = grind (arith, give_up-Waits, locate-Waits)

  run_project_from-Waits :
      (l : Loop libs) (rounds : List (Bool × World))
      → IsBackoff l.backoff
      → All (λ r. IsDraw r.1.random_range) rounds
      → All Waits (run_project_from libs l rounds)
  unfolding run_project_from
  run_project_from-Waits l [] h d = tt
  run_project_from-Waits l ((true, w) ∷ rounds) h d = tt
  run_project_from-Waits l ((false, w) ∷ rounds) h d =
      let here = round-Waits w l d.0 h in
      (here, run_project_from-Waits (round libs w l).state rounds here.backoff d.1)

  -- Whatever the control plane replies, each round of the loop sleeps a second at least, and the
  -- backoff stays between 2 and 30 seconds.
  pub run_project-Waits :
      (rounds : List (Bool × World))
      → All (λ r. IsDraw r.1.random_range) rounds
      → All Waits (run_project libs rounds)
  unfolding run_project
  run_project-Waits rounds d = run_project_from-Waits _ rounds new_backoff-IsBackoff d
