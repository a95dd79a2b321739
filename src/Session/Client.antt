-- ===== src/Session/Client.antt =====
-- `DatumCloudClient`: authorized requests for the organizations and projects, and the check of the
-- selected context against them. An operation runs at one reading of the clock; the server behind the
-- HTTP client may answer anything.
use datum_connect.Text.{Text, codes}
use datum_connect.Json.{Json, Response, read_reply}
use datum_connect.Effects.{Effect, ◌>>=◌, ◌>>◌, pure}
use datum_connect.Login.{AuthState}
use datum_connect.Login.Client.{SessionFile, Provider, AuthStateWrapper, load_refreshed}
use datum_connect.Session.{
  ApiEnv, SelectedContext, Organization, Project, OrganizationWithProjects, Scope, user_scope,
  org_scope, Api, resource_manager, organization_memberships, projects_of, url,
}
use datum_connect.Session.Parse.{parse_orgs, parse_projects}
use datum_connect.Session.Context.{
  ContextFile, SessionStateWrapper, set_selected_context, set_orgs_projects,
}
use datum_connect.Base.{
  ℕ, ◌≡◌, Bool, ◌&&◌, Option, none, some, List, [], ◌∷◌, ◌++◌, arith, if◌then◌else◌, ◌==◌,
  option_eq, nat_eq, text_eq, any, Result, ok, err, context,
}

pub record Http (J : Json) : Type 1 where
  pub Server : Type 0
  -- `get(url).header("Authorization", _).send()`
  pub get : Text → Text → Server → Server × Result (Response J)

-- The test of `refresh_orgs_projects_and_validate_context`
abbrev pub is_valid : List OrganizationWithProjects → SelectedContext → Bool
is_valid list selected =
    any
      (λ o.
        o.org.resource_id == selected.org_id
        && any (λ p. p.resource_id == selected.project_id) o.projects)
      list

module _ (J : Json) (H : Http J) (S : SessionFile) (F : ContextFile) where
  pub record DatumCloudClient : Type 0 where
    pub auth : AuthStateWrapper S
    pub session : SessionStateWrapper F
    pub server : H.Server

  abbrev pub Io {ℓ} : Type ℓ → Type ℓ
  Io A = Effect DatumCloudClient A

  abbrev in_auth {ℓ} : {A : Type ℓ} → (AuthStateWrapper S → AuthStateWrapper S × Result A) → Io A
  in_auth f w = let (auth, r) = f w.auth in (record w { auth = auth }, r)

  abbrev in_session {ℓ} : {A : Type ℓ} → Effect (SessionStateWrapper F) A → Io A
  in_session f w = let (session, r) = f w.session in (record w { session = session }, r)

  abbrev in_server {ℓ} : {A : Type ℓ} → Effect H.Server A → Io A
  in_server f w = let (server, r) = f w.server in (record w { server = server }, r)

  module _ (env : ApiEnv) (P : Provider) (now : ℕ) where
    -- `self.auth.load_refreshed().await?.get()?`
    unfoldable pub refreshed_auth : Io AuthState
    refreshed_auth = do
      auth_state ← in_auth (load_refreshed S P now)
      pure (context auth_state "Not logged in")

    -- What is returned is the session that is in memory.
    pub refreshed_auth-inner :
        (w : DatumCloudClient) (a : AuthState)
        → (refreshed_auth w).1 ≡ ok a
        → ((refreshed_auth w).0.auth.inner ≡ some a) × ((refreshed_auth w).0.session ≡ w.session)
    unfolding refreshed_auth load_refreshed
    refreshed_auth-inner w a h = ground arith

    abbrev bearer : AuthState → Text
    bearer auth = codes "Bearer " ++ auth.tokens.access_token

    unfoldable pub fetch_direct : Text → Io J.Value
    unfolding refreshed_auth
    fetch_direct target = do
      auth ← refreshed_auth
      response ← in_server (H.get target (bearer auth))
      pure (read_reply J "Failed to parse response text as JSON" response)

    abbrev pub fetch : Scope → Api → Io J.Value
    fetch scope api = fetch_direct (url env scope api)

    abbrev scope_of : Option AuthState → Result Scope
    scope_of none = err "Not logged in"
    scope_of (some s) = ok (user_scope s.profile.user_id)

    -- `Scope::user(&self.auth.load().get()?.profile)`
    abbrev own_scope : Io Scope
    own_scope w = pure (scope_of w.auth.inner) w

    unfoldable pub orgs : Io (List Organization)
    orgs = do
      scope ← own_scope
      json ← fetch scope (resource_manager organization_memberships)
      pure (context (parse_orgs J json) "Failed to parse reply")

    unfoldable pub projects : Text → Io (List Project)
    projects org_id = do
      json ← fetch (org_scope org_id) (resource_manager projects_of)
      pure (context (parse_projects J json) "Failed to parse reply")

    -- `try_collect` over the requests, in the order in which they are answered
    unfoldable pub collect_projects : List Organization → Io (List OrganizationWithProjects)
    collect_projects [] = pure (ok [])
    collect_projects (org ∷ rest) = do
      found ← projects org.resource_id
      others ← collect_projects rest
      pure (ok (record { org = org; projects = found } ∷ others))

    abbrev store_list : List OrganizationWithProjects → Io (Unit {0})
    store_list list = in_session (λ w. (set_orgs_projects F list w, ok tt))

    -- `answered` is the order in which `buffered_unordered` has the answers.
    unfoldable pub orgs_and_projects :
        (List Organization → List Organization) → Io (List OrganizationWithProjects)
    orgs_and_projects answered = do
      found ← orgs
      list ← collect_projects (answered found)
      store_list list
      pure (ok list)

    abbrev pub selected_context : Io (Option SelectedContext)
    selected_context w = (w, ok w.session.selected_context)

    abbrev pub validated : List OrganizationWithProjects → Option SelectedContext → Io (Unit {0})
    validated list none = pure (ok tt)
    validated list (some selected) =
        in_session (set_selected_context F (if is_valid list selected then some selected else none))

    unfoldable pub refresh_orgs_projects_and_validate_context :
        (List Organization → List Organization) → Io (Unit {0})
    refresh_orgs_projects_and_validate_context answered = do
      list ← orgs_and_projects answered
      selected ← selected_context
      validated list selected
