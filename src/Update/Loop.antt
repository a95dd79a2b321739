-- ===== src/Update/Loop.antt =====
-- The task of the app that checks for updates: at the start, on request and every 12 hours
-- (ui/src/main.rs).
use datum_connect.Base.{
  ℕ, ◌-◌, ◌*◌, ◌≡◌, ◌≢◌, inl, inr, Bool, true, false, Option, none, some, List, [], ◌∷◌, arith,
  if◌then◌else◌, option_eq, nat_eq, text_eq, Bool-cases, leb, Result, ok, err,
}
use datum_connect.Text.{Text}
use datum_connect.Update.{UpdateSettings, GitHubRelease}
use datum_connect.Update.Checker.{
  Target, Platform, UpdateInfo, load_settings, should_check, check_for_updates,
}

module _ (P : Platform) (target : Target) (current : Text) where
  open P use {Content}

  -- The signals of `App`, the settings file, and the reading of the clock at the last periodic check.
  pub record App : Type 0 where
    pub content : Content
    pub manual_update_check : Bool
    pub update_info : Option (UpdateInfo P)
    pub update_dialog_open : Bool
    pub last_periodic_check : ℕ

  -- What a turn meets: the time, the clock in seconds and the server's replies.
  pub record Turn : Type 0 where
    pub now : ℕ
    pub clock : ℕ
    pub manual_reply : Result (List GitHubRelease)
    pub periodic_reply : Result (List GitHubRelease)

  -- `if let Ok(Some(info))`
  abbrev offered : Result (Option (UpdateInfo P)) → App → App
  offered (err e) a = a
  offered (ok none) a = a
  offered (ok (some info)) a = record a { update_info = some info; update_dialog_open = true }

  unfoldable pub check : Result (List GitHubRelease) → ℕ → App → App
  check reply now a =
      let (c', found) = check_for_updates P target current reply now a.content in
      offered found (record a { content = c' })

  -- The check before the loop.
  unfoldable pub start : Result (List GitHubRelease) → ℕ → App → App
  start reply now a = elim (should_check P a.content now) [
    | err e ↦ a
    | ok due ↦ let checked = check reply now a in if due then checked else a
  ]

  unfoldable pub check_manually : Turn → App → App
  check_manually t a =
      if a.manual_update_check
      then check t.manual_reply t.now (record a { manual_update_check = false })
      else a

  unfoldable pub check_periodically : Turn → App → App
  check_periodically t a =
      if leb (12 * 3600) (t.clock - a.last_periodic_check)
      then record (check t.periodic_reply t.now a) { last_periodic_check = t.clock }
      else a

  -- A turn of the loop.
  unfoldable pub turn : Turn → App → App
  turn t a = check_periodically t (check_manually t a)

  -- What happens to the app: a turn, a request from the menu or the settings, and a dialog that is
  -- closed.
  pub data Event : Type 0 where
    turns : Turn → Event
    requested : Event
    dismissed : Event

  unfoldable pub on_event : Event → App → App
  on_event (turns t) a = turn t a
  on_event requested a = record a { manual_update_check = true }
  on_event dismissed a = record a { update_dialog_open = false }

  unfoldable pub on_events : List Event → App → App
  on_events [] a = a
  on_events (e ∷ es) a = on_events es (on_event e a)

  -- An open dialog has an update to show.
  abbrev pub HasInfo : App → Type 0
  HasInfo a = a.update_dialog_open ≡ true → a.update_info ≢ none

  offered-HasInfo :
      (found : Result (Option (UpdateInfo P))) (a : App) → HasInfo a → HasInfo (offered found a)
  offered-HasInfo (err e) a h = h
  offered-HasInfo (ok none) a h = h
  offered-HasInfo (ok (some info)) a h = λ _ e. ground arith

  check-HasInfo :
      (reply : Result (List GitHubRelease)) (now : ℕ) (a : App)
      → HasInfo a
      → HasInfo (check reply now a)
  unfolding check
  check-HasInfo reply now a h =
      let (c', found) = check_for_updates P target current reply now a.content in
      offered-HasInfo found (record a { content = c' }) h

  pub start-HasInfo :
      (reply : Result (List GitHubRelease)) (now : ℕ) (a : App)
      → HasInfo a
      → HasInfo (start reply now a)
  unfolding start
  start-HasInfo reply now a h = ground (arith, check-HasInfo reply now a h)

  check_manually-HasInfo : (t : Turn) (a : App) → HasInfo a → HasInfo (check_manually t a)
  unfolding check_manually
  check_manually-HasInfo t a h = elim (Bool-cases a.manual_update_check) [
    | inl e ↦ rw e (check-HasInfo t.manual_reply t.now _ h)
    | inr e ↦ rw e h
  ]

  check_periodically-HasInfo : (t : Turn) (a : App) → HasInfo a → HasInfo (check_periodically t a)
  unfolding check_periodically
  check_periodically-HasInfo t a h =
      elim (Bool-cases (leb (12 * 3600) (t.clock - a.last_periodic_check))) [
        | inl e ↦ rw e (check-HasInfo t.periodic_reply t.now a h)
        | inr e ↦ rw e h
      ]

  on_event-HasInfo : (e : Event) (a : App) → HasInfo a → HasInfo (on_event e a)
  unfolding on_event turn
  on_event-HasInfo (turns t) a h =
      check_periodically-HasInfo t (check_manually t a) (check_manually-HasInfo t a h)
  on_event-HasInfo requested a h = h
  on_event-HasInfo dismissed a h = ground arith

  -- Whatever happens, an open dialog has an update to show.
  pub on_events-HasInfo : (es : List Event) (a : App) → HasInfo a → HasInfo (on_events es a)
  unfolding on_events
  on_events-HasInfo [] a h = h
  on_events-HasInfo (e ∷ es) a h = on_events-HasInfo es _ (on_event-HasInfo e a h)

  check-disabled :
      (reply : Result (List GitHubRelease)) (now : ℕ) (a : App) (s : UpdateSettings)
      → load_settings P a.content ≡ ok s
      → s.auto_update_enabled ≡ false
      → check reply now a ≡ a
  unfolding check check_for_updates load_settings
  check-disabled reply now a s h off = ground arith

  check_manually-disabled :
      (t : Turn) (a : App) (s : UpdateSettings)
      → load_settings P a.content ≡ ok s
      → s.auto_update_enabled ≡ false
      → check_manually t a ≡ record a { manual_update_check = false }
  unfolding check_manually
  check_manually-disabled t a s h off = ground (
    arith,
    check-disabled t.manual_reply t.now (record a { manual_update_check = false }) s h off,
  )

  pub turn-disabled :
      (t : Turn) (a : App) (s : UpdateSettings)
      → load_settings P a.content ≡ ok s
      → s.auto_update_enabled ≡ false
      → ((turn t a).content ≡ a.content)
        × ((turn t a).update_info ≡ a.update_info)
        × ((turn t a).update_dialog_open ≡ a.update_dialog_open)
  unfolding turn check_periodically
  turn-disabled t a s h off =
      let asked = record a { manual_update_check = false } in
      rw (check_manually-disabled t a s h off)
        (ground (arith, check-disabled t.periodic_reply t.now asked s h off))
