-- ===== src/Session/Plane.antt =====
-- lib/src/project_control_plane.rs: the client of one project's control plane, which is built anew
-- when the access token has changed, and what lib/src/datum_cloud.rs does to open one. The builder of
-- kube's clients is a parameter.
use datum_connect.Base.{
  ℕ, ◌≡◌, inl, inr, Option, none, some, List, [], ◌∷◌, arith, if◌then◌else◌, ◌==◌, option_eq,
  nat_eq, text_eq, Result, ok, err, Result-cases,
}
use datum_connect.Text.{Text}
use datum_connect.Json.{Json}
use datum_connect.Effects.{Effect, ◌>>=◌, pure}
use datum_connect.Login.{LoginState, missing, needs_refresh, valid, AuthState}
use datum_connect.Login.Client.{SessionFile, Provider}
use datum_connect.Session.{ApiEnv, SelectedContext, project_control_plane_url}
use datum_connect.Session.Context.{ContextFile}
use datum_connect.Session.Client.{
  Http, DatumCloudClient, Io, refreshed_auth, refreshed_auth-inner, selected_context,
}

-- `build_kube_client`, of the server's URL and the access token
pub record KubeBuilder : Type 1 where
  pub Client : Type 0
  pub build : Text → Text → Result Client

module _ (B : KubeBuilder) where
  pub record ProjectControlPlaneClient : Type 0 where
    pub project_id : Text
    pub server_url : Text
    pub access_token : Text
    pub client : B.Client

  -- `ProjectControlPlaneClient::new`
  unfoldable pub new_client : Text → Text → Text → Result ProjectControlPlaneClient
  new_client project_id server_url access_token = elim (B.build server_url access_token) [
    | err e ↦ err e
    | ok client ↦ ok (record {
      project_id = project_id;
      server_url = server_url;
      access_token = access_token;
      client = client;
    })
  ]

  unfoldable pub rebuild_if_changed : Text → Effect ProjectControlPlaneClient (Unit {0})
  rebuild_if_changed access_token c =
      if c.access_token == access_token
      then (c, ok tt)
      else elim (B.build c.server_url access_token) [
        | err e ↦ (c, err e)
        | ok client ↦ (record c { client = client; access_token = access_token }, ok tt)
      ]

  unfoldable pub refresh_client_from_update :
      Option AuthState → Effect ProjectControlPlaneClient (Unit {0})
  unfolding rebuild_if_changed
  refresh_client_from_update none c = (c, ok tt)
  refresh_client_from_update (some auth) c = rebuild_if_changed auth.tokens.access_token c

  -- A turn of the task of `start_auth_watch`: a failure is logged.
  abbrev pub on_auth_change :
      LoginState → Option AuthState → ProjectControlPlaneClient → ProjectControlPlaneClient
  on_auth_change missing auth c = c
  on_auth_change needs_refresh auth c = (refresh_client_from_update auth c).0
  on_auth_change valid auth c = (refresh_client_from_update auth c).0

  -- The client is the one for the stored token.
  abbrev pub IsBuilt : ProjectControlPlaneClient → Type 0
  IsBuilt c = B.build c.server_url c.access_token ≡ ok c.client

  pub new_client-IsBuilt :
      (i u t : Text) (c : ProjectControlPlaneClient) → new_client i u t ≡ ok c → IsBuilt c
  unfolding new_client
  new_client-IsBuilt i u t c h = ground arith

  pub rebuild_if_changed-IsBuilt :
      (t : Text) (c : ProjectControlPlaneClient) → IsBuilt c → IsBuilt (rebuild_if_changed t c).0
  unfolding rebuild_if_changed
  rebuild_if_changed-IsBuilt t c i = ground arith

  rebuild_if_changed-token :
      (t : Text) (c c' : ProjectControlPlaneClient)
      → IsBuilt c
      → rebuild_if_changed t c ≡ (c', ok tt)
      → (B.build c.server_url t ≡ ok c'.client) × IsBuilt c'
  unfolding rebuild_if_changed
  rebuild_if_changed-token t c c' i h = ground arith

  on_auth_change-IsBuilt :
      (l : LoginState) (a : Option AuthState) (c : ProjectControlPlaneClient)
      → IsBuilt c
      → IsBuilt (on_auth_change l a c)
  unfolding refresh_client_from_update
  on_auth_change-IsBuilt missing a c i = i
  on_auth_change-IsBuilt needs_refresh none c i = i
  on_auth_change-IsBuilt needs_refresh (some a) c i =
      rebuild_if_changed-IsBuilt a.tokens.access_token c i
  on_auth_change-IsBuilt valid none c i = i
  on_auth_change-IsBuilt valid (some a) c i = rebuild_if_changed-IsBuilt a.tokens.access_token c i

  -- What the auth task makes of the changes it is told of.
  unfoldable pub watch_auth :
      List (LoginState × Option AuthState) → ProjectControlPlaneClient → ProjectControlPlaneClient
  watch_auth [] c = c
  watch_auth ((l, a) ∷ rest) c = watch_auth rest (on_auth_change l a c)

  -- However the session changes, the client is the one built for the token that is stored with it.
  pub watch_auth-IsBuilt :
      (changes : List (LoginState × Option AuthState)) (c : ProjectControlPlaneClient)
      → IsBuilt c
      → IsBuilt (watch_auth changes c)
  unfolding watch_auth
  watch_auth-IsBuilt [] c i = i
  watch_auth-IsBuilt ((l, a) ∷ rest) c i =
      watch_auth-IsBuilt rest (on_auth_change l a c) (on_auth_change-IsBuilt l a c i)

  module _ (J : Json) (H : Http J) (S : SessionFile) (F : ContextFile) (env : ApiEnv) (P : Provider)
      (now : ℕ) where
    -- `client_refreshed`, with the session that the client shares
    unfoldable pub client_refreshed :
        Effect (DatumCloudClient J H S F × ProjectControlPlaneClient) B.Client
    unfolding rebuild_if_changed
    client_refreshed (w, c) =
        let (w', auth) = refreshed_auth J H S F env P now w in
        elim auth [
          | err e ↦ ((w', c), err e)
          | ok a ↦
              let (c', r) = rebuild_if_changed a.tokens.access_token c in
              elim r [ err e ↦ ((w', c'), err e) | ok _ ↦ ((w', c'), ok c'.client) ]
        ]

    -- `project_control_plane_client`, with `project_control_plane_client_with_token`
    unfoldable pub project_control_plane_client : Text → Io J H S F ProjectControlPlaneClient
    unfolding new_client
    project_control_plane_client project_id = do
      auth ← refreshed_auth J H S F env P now
      pure (
          new_client project_id (project_control_plane_url env project_id) auth.tokens.access_token)

    abbrev client_of : Option SelectedContext → Io J H S F (Option ProjectControlPlaneClient)
    client_of none = pure (ok none)
    client_of (some selected) = do
      client ← project_control_plane_client selected.project_id
      pure (ok (some client))

    unfoldable pub project_control_plane_client_active :
        Io J H S F (Option ProjectControlPlaneClient)
    unfolding project_control_plane_client
    project_control_plane_client_active = do
      selected ← selected_context J H S F env P now
      client_of selected

    -- A client that is handed out was built for the token of the session that is in memory.
    pub client_refreshed-session :
        (w w' : DatumCloudClient J H S F) (c c' : ProjectControlPlaneClient) (k : B.Client)
        → IsBuilt c
        → client_refreshed (w, c) ≡ ((w', c'), ok k)
        → (auth : AuthState) × (w'.auth.inner ≡ some auth)
          × (B.build c.server_url auth.tokens.access_token ≡ ok k)
          × IsBuilt c'
    unfolding client_refreshed
    client_refreshed-session w w' c c' k i h =
        elim (Result-cases (refreshed_auth J H S F env P now w).1) [
          | inr (e, q) ↦ ground arith
          | inl (a, q) ↦ (
            a,
            ground (arith, refreshed_auth-inner J H S F env P now w a),
            ground (arith, rebuild_if_changed-token a.tokens.access_token c c'),
            ground (arith, rebuild_if_changed-token a.tokens.access_token c c'),
          )
        ]

    abbrev token_of : Option AuthState → Option Text
    token_of none = none
    token_of (some a) = some a.tokens.access_token

    -- A client is for the project, at its URL, with the token of the session that is in memory.
    abbrev pub IsFor : Text → DatumCloudClient J H S F → ProjectControlPlaneClient → Type 0
    IsFor project_id w c =
        (c.project_id ≡ project_id)
        × (c.server_url ≡ project_control_plane_url env project_id)
        × (token_of w.auth.inner ≡ some c.access_token)
        × IsBuilt c

    new_client-fields :
        (i u t : Text) (c : ProjectControlPlaneClient)
        → new_client i u t ≡ ok c
        → (c.project_id ≡ i) × (c.server_url ≡ u) × (c.access_token ≡ t) × IsBuilt c
    unfolding new_client
    new_client-fields i u t c h = ground arith

    pub project_control_plane_client-IsFor :
        (i : Text) (w w' : DatumCloudClient J H S F) (c : ProjectControlPlaneClient)
        → project_control_plane_client i w ≡ (w', ok c)
        → IsFor i w' c
    unfolding project_control_plane_client
    project_control_plane_client-IsFor i w w' c h =
        elim (Result-cases (refreshed_auth J H S F env P now w).1) [
          | inr (e, q) ↦ ground arith
          | inl (a, q) ↦ ground (
            arith,
            refreshed_auth-inner J H S F env P now w a,
            new_client-fields i (project_control_plane_url env i) a.tokens.access_token c,
          )
        ]

    -- The client of the selected context is the one of its project.
    pub project_control_plane_client_active-IsFor :
        (w w' : DatumCloudClient J H S F) (c : ProjectControlPlaneClient) (s : SelectedContext)
        → w.session.selected_context ≡ some s
        → project_control_plane_client_active w ≡ (w', ok (some c))
        → IsFor s.project_id w' c
    unfolding project_control_plane_client_active
    project_control_plane_client_active-IsFor w w' c s e h = ground (
      arith,
      Result-cases (project_control_plane_client s.project_id w).1,
      project_control_plane_client-IsFor s.project_id w w' c,
    )
