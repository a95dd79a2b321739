-- ===== src/Session/Tests.antt =====
-- Runs of the cloud session over a small server, and instances of its theorems.
use datum_connect.Base.{
  ◌*◌, ◌≡◌, refl, true, false, Option, none, some, List, [], ◌∷◌, if◌then◌else◌, ◌==◌, option_eq,
  nat_eq, text_eq, Result, ok, is_ok,
}
use datum_connect.Text.{Text, codes, contains}
use datum_connect.Json.{Json}
use datum_connect.Login.{AuthState, valid, second}
use datum_connect.Login.Client.{SessionFile, Provider, load_refreshed}
use datum_connect.Session.{production, SelectedContext, url}
use datum_connect.Session.Context
use datum_connect.Session.Context.{
  ContextFile, SessionStateWrapper, Watch, set_selected_context, set_selected_context-IsStored,
  IsStored, from_repo,
}
use datum_connect.Session.Client.{
  Http, DatumCloudClient, refresh_orgs_projects_and_validate_context, orgs, projects, fetch_direct,
  refreshed_auth, collect_projects, orgs_and_projects,
}
use datum_connect.Session.Validation.{IsChecked, validate_lem}
use datum_connect.Session.Plane.{
  KubeBuilder, ProjectControlPlaneClient, IsBuilt, client_refreshed, client_refreshed-session,
}

-- Objects are chains of fields, arrays of items.
data Value : Type 0 where
  text : Text → Value
  nothing : Value
  field : Text → Value → Value → Value
  item : Value → Value → Value

as_object : Value → Option Value
as_object (text s) = none
as_object nothing = some nothing
as_object (field k v o) = some (field k v o)
as_object (item v o) = none

items : Value → List Value
items (text s) = []
items nothing = []
items (field k v o) = []
items (item v o) = v ∷ items o

as_str : Value → Option Text
as_str (text s) = some s
as_str nothing = none
as_str (field k v o) = none
as_str (item v o) = none

get : Value → Text → Option Value
get (text s) key = none
get nothing key = none
get (field k v o) key = let rest = get o key in if k == key then some v else rest
get (item v o) key = none

abbrev json : Json
json = record {
  Value = Value;
  Object = Value;
  as_object = as_object;
  as_array = λ v. some (items v);
  as_str = as_str;
  get = get;
}

abbrev obj : Text → Value → Value
obj k v = field k v nothing

abbrev orgs_reply : Value
orgs_reply = obj (codes "items") (
    item
      (field (codes "status")
        (obj (codes "organization") (
          field (codes "displayName") (text (codes "Org"))
            (obj (codes "type") (text (codes "Personal")))))
        (obj (codes "spec")
          (obj (codes "organizationRef") (obj (codes "name") (text (codes "org-1"))))))
      nothing)

abbrev projects_reply : Value
projects_reply = obj (codes "items") (
    item
      (obj (codes "metadata") (
        field (codes "name") (text (codes "project-1")) (
          obj (codes "annotations")
            (obj (codes "kubernetes.io/description") (text (codes "Project"))))))
      nothing)

abbrev http : Http json
http = record {
  Server = Unit {0};
  get = λ target auth s. (
    s,
    ok (record {
      is_success = true;
      json = ok (if contains target (codes "/users/") then orgs_reply else projects_reply);
    }),
  );
}

abbrev session_file : SessionFile
session_file = record { Content = Unit {0}; write = λ s c. (c, ok tt); read = λ c. ok none }

abbrev context_file : ContextFile
context_file = record {
  Content = Option SelectedContext;
  write = λ s c. (s, ok tt);
  read = λ c. ok c;
}

context_file-IsLawful : Context.IsLawful context_file
context_file-IsLawful = record { read-write = λ s c h. refl }

abbrev user : AuthState
user = record {
  tokens = record {
    access_token = codes "token";
    refresh_token = none;
    issued_at = 0;
    expires_in = 3600 * second;
  };
  profile = record {
    user_id = codes "u";
    email = codes "u@x";
    first_name = none;
    last_name = none;
    avatar_url = none;
    registration_approval = none;
  };
}

abbrev provider : Provider
provider = record {
  login = ok user;
  refresh = λ t. ok user;
  fetch_user_profile = λ t i. ok user.profile;
}

abbrev context_of : Text → SelectedContext
context_of i = record {
  org_id = codes "org-1";
  org_name = codes "Org";
  project_id = i;
  project_name = codes "Project";
}

abbrev session_with : Option SelectedContext → SessionStateWrapper context_file
session_with s = record {
  selected_context = s;
  selected_context_tx = record { value = s; subscribed = false };
  orgs_projects = [];
  orgs_projects_tx = record { value = []; subscribed = false };
  repo = some s;
}

abbrev client_with : Option SelectedContext → DatumCloudClient json http session_file context_file
client_with s = record {
  auth = record { inner = some user; file = tt; login_state = valid; auth_updates = 0 };
  session = session_with s;
  server = tt;
}

abbrev validated_client :
    DatumCloudClient json http session_file context_file
    → DatumCloudClient json http session_file context_file × Result (Unit {0})
validated_client =
    refresh_orgs_projects_and_validate_context json http session_file context_file production
      provider 0 (λ l. l)

-- The project of the server is kept, another one is taken back.
keeps_project :
    let r = validated_client (client_with (some (context_of (codes "project-1")))) in
    (r.0.session.selected_context ≡ some (context_of (codes "project-1"))) × (r.1 ≡ ok tt)
unfolding refresh_orgs_projects_and_validate_context orgs_and_projects orgs projects
    collect_projects fetch_direct refreshed_auth load_refreshed set_selected_context url contains
    nat_eq text_eq as_object items as_str get
keeps_project = (refl, refl)

drops_project :
    let r = validated_client (client_with (some (context_of (codes "gone")))) in
    (r.0.session.selected_context ≡ none) × (r.1 ≡ ok tt)
unfolding refresh_orgs_projects_and_validate_context orgs_and_projects orgs projects
    collect_projects fetch_direct refreshed_auth load_refreshed set_selected_context url contains
    nat_eq text_eq as_object items as_str get
drops_project = (refl, refl)

validate_lem_example :
    let (w, r) = validated_client (client_with (some (context_of (codes "gone")))) in
    (is_ok r ≡ true
      → IsChecked w.session.orgs_projects
          (some (context_of (codes "gone")))
          w.session.selected_context)
    × (is_ok r ≡ false → w.session.selected_context ≡ some (context_of (codes "gone")))
validate_lem_example =
    validate_lem json http session_file context_file production provider 0 (λ l. l)
      (client_with (some (context_of (codes "gone"))))
      (validated_client (client_with (some (context_of (codes "gone"))))).0
      (validated_client (client_with (some (context_of (codes "gone"))))).1 refl

-- A selection made while nobody watches does not reach those who subscribe later.
abbrev chosen : SessionStateWrapper context_file
chosen = record (session_with none) {
  selected_context = some (context_of (codes "project-1"));
  repo = some (some (context_of (codes "project-1")));
}

chooses :
    set_selected_context context_file (some (context_of (codes "project-1"))) (session_with none)
    ≡ (chosen, ok tt)
unfolding set_selected_context
chooses = refl

set_selected_context-IsStored_example :
    (chosen.selected_context ≡ some (context_of (codes "project-1")))
    × IsStored context_file chosen
    × ((session_with none).selected_context_tx.value ≡ none)
set_selected_context-IsStored_example =
    set_selected_context-IsStored context_file context_file-IsLawful
      (some (context_of (codes "project-1"))) (session_with none) chosen none refl refl chooses

-- A builder that takes any token, and shows it in the client
abbrev builder : KubeBuilder
builder = record { Client = Text × Text; build = λ u t. ok (u, t) }

abbrev plane_client : Text → ProjectControlPlaneClient builder
plane_client t = record {
  project_id = codes "project-1";
  server_url = codes "https://server";
  access_token = t;
  client = (codes "https://server", t);
}

refreshes :
    client_refreshed builder json http session_file context_file production provider 0
      (client_with none, plane_client (codes "old"))
    ≡ ((client_with none, plane_client (codes "token")), ok (codes "https://server", codes "token"))
unfolding client_refreshed refreshed_auth load_refreshed nat_eq text_eq
refreshes = refl

client_refreshed-session_example :
    (auth : AuthState) × ((client_with none).auth.inner ≡ some auth)
    × (builder.build (codes "https://server") auth.tokens.access_token
        ≡ ok (codes "https://server", codes "token"))
    × IsBuilt builder (plane_client (codes "token"))
client_refreshed-session_example =
    client_refreshed-session builder json http session_file context_file production provider 0
      (client_with none) (client_with none) (plane_client (codes "old"))
      (plane_client (codes "token")) (codes "https://server", codes "token") refl refreshes
