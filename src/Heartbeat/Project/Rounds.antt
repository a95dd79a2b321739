-- ===== src/Heartbeat/Project/Rounds.antt =====
-- What a round of `run_project` writes, and what it keeps.
use datum_connect.Base.{
  ◌≡◌, refl, inl, inr, some, List, [], ◌∷◌, ◌++◌, ◌==◌, option_eq, nat_eq, text_eq, Bool-cases, All,
  Option-cases, Result, ok, err, Result-cases,
}
use datum_connect.Text.{Text}
use datum_connect.Heartbeat.{Backoff}
use datum_connect.Heartbeat.Project.{
  Libraries, World, Loop, Outcome, Call, patch_status, renew_lease, ConnectorCache, give_up, renew,
  with_lease, send, report, with_connector, locate, round, lease_duration,
}

module _ (libs : Libraries) where
  -- The call is about the connector and the lease of these names.
  abbrev IsFor : Text → Text → Call libs → Type 0
  IsFor name lease_name (patch_status n v) = n ≡ name
  IsFor name lease_name (renew_lease n) = n ≡ lease_name

  -- The outcome still has the connector and its lease, and wrote to no other.
  abbrev pub Keeps : Text → Text → Outcome libs → Type 0
  Keeps name lease_name o =
      (c : ConnectorCache libs) × (o.state.cache ≡ some c)
      × (c.name ≡ name)
      × (c.lease_name ≡ some lease_name)
      × All (IsFor name lease_name) o.calls

  append-All :
      (name lease_name : Text) (xs ys : List (Call libs))
      → All (IsFor name lease_name) xs
      → All (IsFor name lease_name) ys
      → All (IsFor name lease_name) (xs ++ ys)
  append-All name lease_name [] ys h k = k
  append-All name lease_name (x ∷ xs) ys h k = (h.0, append-All name lease_name xs ys h.1 k)

  module _ (w : World) (b : Backoff) (lease_name : Text) where
    renew-Keeps :
        (c : ConnectorCache libs) (calls : List (Call libs)) (r : Result (Unit {0}))
        → w.renewed ≡ r
        → c.lease_name ≡ some lease_name
        → All (IsFor c.name lease_name) calls
        → Keeps c.name lease_name (renew libs w b c lease_name calls)
    unfolding renew give_up
    renew-Keeps c calls (ok _) e h k =
        rw (e, renew) (c, refl, refl, h, append-All c.name lease_name calls _ k (refl, tt))
    renew-Keeps c calls (err _) e h k =
        rw (e, renew) (c, refl, refl, h, append-All c.name lease_name calls _ k (refl, tt))

    with_lease-Keeps :
        (c : ConnectorCache libs) (calls : List (Call libs))
        → c.lease_name ≡ some lease_name
        → All (IsFor c.name lease_name) calls
        → Keeps c.name lease_name (with_lease libs w b c calls)
    unfolding with_lease give_up
    with_lease-Keeps c calls h k = elim (Option-cases c.lease_duration_seconds) [
      | inr (d, e) ↦ rw (h, e, with_lease) (renew-Keeps c calls w.renewed refl h k)
      | inl e ↦ elim (Result-cases (w.lease lease_name)) [
        | inr (_, f) ↦ rw (h, e, f, with_lease, give_up) (c, refl, refl, h, k)
        | inl (lease, f) ↦
            rw (h, e, f, with_lease)
              (renew-Keeps (record c { lease_duration_seconds = lease_duration lease }) calls
                w.renewed refl h k)
      ]
    ]

    send-Keeps :
        (c : ConnectorCache libs) (v : libs.Value)
        → c.lease_name ≡ some lease_name
        → Keeps c.name lease_name (send libs w b c v)
    unfolding send
    send-Keeps c v h =
        elim (Bool-cases (◌==◌ ⦃e = option_eq ⦃e = libs.value_eq⦄⦄ c.last_details (some v))) [
          | inl e ↦ rw (e, send) (with_lease-Keeps c [] h tt)
          | inr e ↦ elim (Result-cases w.patched) [
            | inl (_, f) ↦
                rw (e, f, send)
                  (with_lease-Keeps (record c { last_details = some v })
                    (patch_status c.name v ∷ []) h (refl, tt))
            | inr (_, f) ↦
                rw (e, f, send) (with_lease-Keeps c (patch_status c.name v ∷ []) h (refl, tt))
          ]
        ]

    report-Keeps :
        (c : ConnectorCache libs)
        → c.lease_name ≡ some lease_name
        → Keeps c.name lease_name (report libs w b c)
    unfolding report give_up
    report-Keeps c h = elim (Option-cases (w.details c.last_home_relay)) [
      | inl e ↦ rw (e, report, give_up) (c, refl, refl, h, tt)
      | inr (d, e) ↦ elim (Result-cases (libs.to_value d)) [
        | inr (_, f) ↦ rw (e, f, report, give_up) (c, refl, refl, h, tt)
        | inl (v, f) ↦ rw (e, f, report) (send-Keeps c v h)
      ]
    ]

  -- Once a connector and its lease are known, a round writes to no other connector and no other
  -- lease, and ends with the same two names: whatever fails, they are never looked up again.
  pub round-Keeps :
      (w : World) (l : Loop libs) (c : ConnectorCache libs) (lease_name : Text)
      → l.cache ≡ some c
      → c.lease_name ≡ some lease_name
      → Keeps c.name lease_name (round libs w l)
  unfolding round give_up
  round-Keeps w l c lease_name h k = elim (Result-cases w.pcp) [
    | inr (_, e) ↦ rw (e, round, give_up) (c, h, refl, k, tt)
    | inl (_, e) ↦
        rw (e, h, k, round, locate, with_connector) (report-Keeps w l.backoff lease_name c k)
  ]
