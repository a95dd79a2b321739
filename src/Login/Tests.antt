-- ===== src/Login/Tests.antt =====
-- Runs of the session over a small file, and instances of its theorems.
use datum_connect.Base.{
  ℕ, ◌+◌, ◌*◌, ◌≤◌, ◌≡◌, refl, ◌⊎◌, true, Option, none, some, List, [], ◌∷◌, ◌++◌, option_eq,
  nat_eq, text_eq, All, Result, ok, err,
}
use datum_connect.Json.{Json}
use datum_connect.Session.{production}
use datum_connect.Login.Redirect.{OauthRedirectData, recv, IsForged, recv_lem}
use datum_connect.Login.Tokens.{
  Oidc, Claims, TokenResponse, nonce_verifier, fetch_user_profile, parse_token_response,
  parse_token_response_lem,
}
use datum_connect.Text.{Text, codes}
use datum_connect.Login.{
  needs_refresh, valid, UserProfile, AuthState, second, refresh_auth_when, expires_at,
  next_refresh_delay,
}
use datum_connect.Login.Client.{
  SessionFile, IsLawful, Provider, AuthStateWrapper, IsStored, set, login, refresh_if_needed,
  refresh_session, refresh, load_refreshed, logging_in, perform-IsStored, load_refreshed-good,
}

abbrev small : SessionFile
small = record { Content = Option AuthState; write = λ s c. (s, ok tt); read = λ c. ok c }

small-IsLawful : IsLawful small
small-IsLawful = record { read-write = λ s c h. refl }

abbrev user : UserProfile
user = record {
  user_id = codes "u";
  email = codes "u@x";
  first_name = none;
  last_name = none;
  avatar_url = none;
  registration_approval = none;
}

-- A session that lasts an hour.
abbrev issued : ℕ → AuthState
issued at_time = record {
  tokens = record {
    access_token = codes "a";
    refresh_token = none;
    issued_at = at_time;
    expires_in = 3600 * second;
  };
  profile = user;
}

abbrev provider : Provider
provider = record {
  login = ok (issued 0);
  refresh = λ t. ok (issued (3000 * second));
  fetch_user_profile = λ t i. ok user;
}

abbrev logged_out : AuthStateWrapper small
logged_out = record { inner = none; file = none; login_state = needs_refresh; auth_updates = 0 }

abbrev logged_in : AuthStateWrapper small
logged_in = record {
  inner = some (issued 0);
  file = some (issued 0);
  login_state = valid;
  auth_updates = 1;
}

logs_in : login small provider 0 logged_out ≡ (logged_in, ok tt)
unfolding login set
logs_in = refl

perform-IsStored_example : IsStored small logged_in
perform-IsStored_example =
    perform-IsStored small small-IsLawful logging_in provider 0 logged_out logged_in refl logs_in

abbrev renewed : AuthStateWrapper small
renewed = record {
  inner = some (issued (3000 * second));
  file = some (issued (3000 * second));
  login_state = valid;
  auth_updates = 2;
}

renews :
    load_refreshed small provider (3000 * second) logged_in
    ≡ (renewed, ok (some (issued (3000 * second))))
unfolding load_refreshed refresh_if_needed refresh refresh_session set
renews = refl

load_refreshed-good_example :
    (some (issued (3000 * second)) ≡ some (issued (3000 * second)))
    × ((3000 * second + refresh_auth_when ≤ expires_at (issued (3000 * second)).tokens)
        ⊎ ((old : AuthState) × (logged_in.inner ≡ some old)
            × (provider.refresh old.tokens ≡ ok (issued (3000 * second)))))
load_refreshed-good_example =
    load_refreshed-good small provider (3000 * second) logged_in renewed (issued (3000 * second))
      renews

-- A fresh session is looked at again after half an hour.
delayed : next_refresh_delay 0 (some (issued 0)) ≡ 1800
unfolding next_refresh_delay
delayed = refl

-- A request of another site comes before the answer of the identity provider.
abbrev replies : List (Result OauthRedirectData)
replies =
    ok (record { code = codes "bad"; state = codes "guess" })
    ∷ ok (record { code = codes "good"; state = codes "csrf" })
    ∷ []

receives : recv (codes "csrf") replies ≡ ok (codes "good", [])
unfolding recv nat_eq text_eq
receives = refl

recv_lem_example :
    (before : List (Result OauthRedirectData)) × (reply : OauthRedirectData) × (replies
      ≡ before ++ ok reply ∷ [])
    × All (IsForged (codes "csrf")) before
    × (reply.state ≡ codes "csrf")
    × (reply.code ≡ codes "good")
recv_lem_example = recv_lem (codes "csrf") (codes "good") replies [] receives

-- JSON with a profile in every value
abbrev json : Json
json = record {
  Value = Text;
  Object = Text;
  as_object = λ v. some v;
  as_array = λ v. none;
  as_str = λ v. some v;
  get = λ o key. some (o ++ key);
}

abbrev issued_claims : Claims
issued_claims = record {
  access_token_hash = some (codes "#a");
  subject = codes "u";
  issue_time = 7;
}

abbrev verify : Text → (Option Text → Result (Unit {0})) → Result Claims
verify received verifier = elim (verifier (some received)) [
  | err e ↦ err e
  | ok _ ↦ ok issued_claims
]

abbrev oidc : Oidc json
oidc = record {
  IdToken = Text;
  claims = verify;
  hash_of = λ t i. ok (b'#' ∷ t);
  get = λ target auth. ok (record { is_success = true; json = ok [] });
}

abbrev response : TokenResponse oidc
response = record {
  id_token = some (codes "nonce-1");
  access_token = codes "a";
  refresh_token = none;
  expires_in = some 3600;
}

abbrev parsed : AuthState
parsed = record {
  tokens = record {
    access_token = codes "a";
    refresh_token = none;
    issued_at = 7;
    expires_in = 3600;
  };
  profile = record {
    user_id = codes "metadataname";
    email = codes "specemail";
    first_name = some (codes "specgivenName");
    last_name = some (codes "specfamilyName");
    avatar_url = some (codes "statusavatarUrl");
    registration_approval = some (codes "statusregistrationApproval");
  };
}

parses :
    parse_token_response oidc production response (nonce_verifier (codes "nonce-1")) ≡ ok parsed
unfolding parse_token_response fetch_user_profile nat_eq text_eq
parses = refl

parse_token_response_lem_example :
    (id_token : Text) × (c : Claims) × (response.id_token ≡ some id_token)
    × (verify id_token (nonce_verifier (codes "nonce-1")) ≡ ok c)
    × ((expected : Text)
        → c.access_token_hash ≡ some expected
        → oidc.hash_of (codes "a") id_token ≡ ok expected)
    × (codes "a" ≡ codes "a")
    × (parsed.tokens.issued_at ≡ c.issue_time)
    × (response.expires_in ≡ some 3600)
    × (fetch_user_profile oidc production parsed.tokens c.subject ≡ ok parsed.profile)
parse_token_response_lem_example =
    parse_token_response_lem oidc production response (nonce_verifier (codes "nonce-1")) parsed
      parses
