-- ===== src/Session/Sync.antt =====
-- The task that `start_session_sync` of lib/src/datum_cloud.rs starts: the selected context is checked
-- again after each change of the login.
use datum_connect.Base.{
  ℕ, ◌≡◌, refl, ◌⊎◌, inl, Bool, true, false, Option, none, List, [], ◌∷◌, arith, if◌then◌else◌,
  option_eq, nat_eq, text_eq,
}
use datum_connect.Json.{Json}
use datum_connect.Login.{LoginState, missing, needs_refresh, valid}
use datum_connect.Login.Client.{SessionFile, Provider, AuthStateWrapper}
use datum_connect.Session.{ApiEnv, SelectedContext, Organization}
use datum_connect.Session.Context.{ContextFile}
use datum_connect.Session.Client.{
  Http, DatumCloudClient, refresh_orgs_projects_and_validate_context,
}
use datum_connect.Session.Validation.{validated_selection}

module _ (J : Json) (H : Http J) (S : SessionFile) (F : ContextFile) (env : ApiEnv) where
  -- What has changed when the task wakes: the login that others have stored, and the replies, the
  -- clock and the order of the answers for the check.
  pub record Change : Type 0 where
    pub auth : AuthStateWrapper S
    pub provider : Provider
    pub now : ℕ
    pub answered : List Organization → List Organization

  abbrev is_missing : LoginState → Bool
  is_missing missing = true
  is_missing needs_refresh = false
  is_missing valid = false

  -- A turn of the loop; the result of the check is dropped.
  unfoldable pub sync_turn : Change → DatumCloudClient J H S F → DatumCloudClient J H S F
  sync_turn c w =
      let changed = record w { auth = c.auth } in
      if is_missing c.auth.login_state
      then changed
      else (refresh_orgs_projects_and_validate_context J H S F env c.provider c.now c.answered
          changed).0

  unfoldable pub session_sync : List Change → DatumCloudClient J H S F → DatumCloudClient J H S F
  session_sync [] w = w
  session_sync (c ∷ cs) w = session_sync cs (sync_turn c w)

  -- The selection is the one it was, or none.
  abbrev KeepsOrClears : Option SelectedContext → Option SelectedContext → Type 0
  KeepsOrClears s t = (t ≡ s) ⊎ (t ≡ none)

  sync_turn-KeepsOrClears :
      (c : Change) (w : DatumCloudClient J H S F)
      → KeepsOrClears w.session.selected_context (sync_turn c w).session.selected_context
  unfolding sync_turn
  sync_turn-KeepsOrClears c w =
      let changed = record w { auth = c.auth } in
      let r =
        refresh_orgs_projects_and_validate_context J H S F env c.provider c.now c.answered
          changed in
      ground
        (arith, validated_selection J H S F env c.provider c.now c.answered changed r.0 r.1 refl)

  -- The task never selects anything: it keeps the selection or takes it back.
  pub session_sync-KeepsOrClears :
      (cs : List Change) (w : DatumCloudClient J H S F)
      → KeepsOrClears w.session.selected_context (session_sync cs w).session.selected_context
  unfolding session_sync
  session_sync-KeepsOrClears [] w = inl refl
  session_sync-KeepsOrClears (c ∷ cs) w =
      ground (arith, sync_turn-KeepsOrClears c w, session_sync-KeepsOrClears cs (sync_turn c w))
