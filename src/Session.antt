-- ===== src/Session.antt =====
-- lib/src/datum_cloud/env.rs and the data of lib/src/datum_cloud.rs: the environments of the API,
-- the URLs of a request, organizations and projects, and the context that the user has selected.
pub mod Parse
pub mod Context
pub mod Client
pub mod Validation
pub mod Plane
pub mod Sync
mod Tests
use datum_connect.Base.{
  ℕ, zero, suc, ◌+◌, ◌-◌, ◌*◌, ◌/◌, ◌%◌, ◌^◌, ◌≤◌, ◌<◌, min, max, String, ◌≡◌, refl, sym, ap, subst,
  ◌∙◌, ◌≢◌, ◌↔◌, ◌⊎◌, inl, inr, Bool, true, false, not, ◌&&◌, ◌||◌, Option, none, some, List, [],
  ◌∷◌, ◌++◌, map, arith, if◌then◌else◌, Eq, ◌==◌, ==_refl, eq_of_==, option_eq, nat_eq, text_eq,
  Bool-cases, ltb, leb, u16_max, u32_max, u64_mod, ltb→lt, lt→ltb, leb→le, le→leb, tests, length,
  any, all, find, keep, skip, take, filter_map, All, Option-cases, length-append, find-test,
  find-eq-none, Result, ok, err, ◌>>=◌, ◌>>◌, context, std_context, to_option, is_ok, Result-cases,
}
use datum_connect.Text.{Text, codes}

pub data ApiEnv : Type 0 where
  staging production : ApiEnv

-- `AuthProvider`
pub record AuthProvider : Type 0 where
  pub issuer_url : Text
  pub client_id : Text
  pub client_secret : Option Text

-- `ApiEnv::from_env`, of the variable's value if it is set
abbrev pub from_env : Option Text → ApiEnv
from_env none = production
from_env (some value) = if value == codes "staging" then staging else production

abbrev pub oauth_storage_key : ApiEnv → Text
oauth_storage_key staging = codes "staging"
oauth_storage_key production = codes "production"

abbrev pub api_url : ApiEnv → Text
api_url staging = codes "https://api.staging.env.datum.net"
api_url production = codes "https://api.datum.net"

abbrev pub web_url : ApiEnv → Text
web_url staging = codes "https://cloud.staging.env.datum.net"
web_url production = codes "https://cloud.datum.net"

abbrev pub auth_provider : ApiEnv → AuthProvider
auth_provider staging = record {
  issuer_url = codes "https://auth.staging.env.datum.net";
  client_id = codes "360628090294044442";
  client_secret = none;
}
auth_provider production = record {
  issuer_url = codes "https://auth.datum.net";
  client_id = codes "360628348109527815";
  client_secret = none;
}

pub record SelectedContext : Type 0 where
  pub org_id : Text
  pub org_name : Text
  pub project_id : Text
  pub project_name : Text

-- `SelectedContext::label`
abbrev pub context_label : SelectedContext → Text
context_label c = c.org_name ++ (codes " / " ++ c.project_name)

-- The derived `==`
abbrev pub same_context : SelectedContext → SelectedContext → Bool
same_context a b =
    a.org_id == b.org_id
    && a.org_name == b.org_name
    && a.project_id == b.project_id
    && a.project_name == b.project_name

abbrev pub same_selection : Option SelectedContext → Option SelectedContext → Bool
same_selection none none = true
same_selection (some a) (some b) = same_context a b
same_selection _ _ = false

pub same_selection-eq : (a b : Option SelectedContext) → same_selection a b ≡ true → a ≡ b
same_selection-eq none none h = refl
same_selection-eq none (some b) h = ground arith
same_selection-eq (some a) none h = ground arith
same_selection-eq (some a) (some b) h = ground arith

pub record Organization : Type 0 where
  pub resource_id : Text
  pub display_name : Text
  -- `r#type`
  pub kind : Text

pub record Project : Type 0 where
  pub resource_id : Text
  pub display_name : Text

pub record OrganizationWithProjects : Type 0 where
  pub org : Organization
  pub projects : List Project

-- `Scope`, with the user's id or the organization's
pub data Scope : Type 0 where
  user_scope org_scope : Text → Scope

pub data ResourceManager : Type 0 where
  organization_memberships projects_of : ResourceManager

pub data Api : Type 0 where
  resource_manager : ResourceManager → Api

-- The derived `Display`s
abbrev pub scope_path : Scope → Text
scope_path (user_scope user_id) = codes "/apis/iam.miloapis.com/v1alpha1/users/" ++ user_id
scope_path (org_scope org_id) =
    codes "/apis/resourcemanager.miloapis.com/v1alpha1/organizations/" ++ org_id

abbrev pub resource_path : ResourceManager → Text
resource_path organization_memberships = codes "/organizationmemberships"
resource_path projects_of = codes "/projects"

abbrev pub api_path : Api → Text
api_path (resource_manager resource) =
    codes "/control-plane/apis/resourcemanager.miloapis.com/v1alpha1" ++ resource_path resource

-- `DatumCloudClient::url`
unfoldable pub url : ApiEnv → Scope → Api → Text
url env scope api = api_url env ++ (scope_path scope ++ api_path api)

-- `DatumCloudClient::project_control_plane_url`
unfoldable pub project_control_plane_url : ApiEnv → Text → Text
project_control_plane_url env project_id =
    api_url env
    ++ (codes "/apis/resourcemanager.miloapis.com/v1alpha1/projects/"
        ++ (project_id ++ codes "/control-plane"))
