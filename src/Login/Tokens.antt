-- ===== src/Login/Tokens.antt =====
-- `StatelessClient` of lib/src/datum_cloud/auth.rs: what is made of the token response of the identity
-- provider. The OpenID Connect library is a parameter.
use datum_connect.Base.{
  ℕ, ◌≡◌, inl, inr, Option, none, some, ◌++◌, arith, if◌then◌else◌, ◌==◌, option_eq, nat_eq,
  text_eq, Option-cases, Result, ok, err, context, Result-cases,
}
use datum_connect.Text.{Text, codes}
use datum_connect.Json.{Json, Response, read_reply}
use datum_connect.Login.{AuthTokens, UserProfile, AuthState}
use datum_connect.Login.Client.{Provider}
use datum_connect.Session.{ApiEnv, api_url}
use datum_connect.Login.Profile.{parse_user}

-- The claims of an ID token
pub record Claims : Type 0 where
  pub access_token_hash : Option Text
  pub subject : Text
  pub issue_time : ℕ

-- `nonce_verifier` of `login`; the debug prints that are compared are those of the nonces.
abbrev pub nonce_verifier : Text → Option Text → Result (Unit {0})
nonce_verifier expected none = err "Missing nonce in ID token"
nonce_verifier expected (some received) =
    if received == expected then ok tt else err "Nonce mismatch"

abbrev pub refresh_nonce_verifier : Option Text → Result (Unit {0})
refresh_nonce_verifier received = ok tt

pub record Oidc (J : Json) : Type 1 where
  pub IdToken : Type 0
  -- `id_token.claims(&verifier, nonce_verifier)`
  pub claims : IdToken → (Option Text → Result (Unit {0})) → Result Claims
  -- `AccessTokenHash::from_token` with the token's algorithm and key
  pub hash_of : Text → IdToken → Result Text
  -- a GET request, of the URL and the header `Authorization`
  pub get : Text → Text → Result (Response J)

-- `OidcTokenResponse`
pub record TokenResponse {J : Json} (O : Oidc J) : Type 0 where
  pub id_token : Option O.IdToken
  pub access_token : Text
  pub refresh_token : Option Text
  pub expires_in : Option ℕ

module _ {J : Json} (O : Oidc J) (env : ApiEnv) where
  unfoldable pub fetch_user_profile : AuthTokens → Text → Result UserProfile
  unfolding parse_user
  fetch_user_profile tokens user_id =
      elim (O.get (api_url env ++ (codes "/apis/iam.miloapis.com/v1alpha1/users/" ++ user_id))
        (codes "Bearer " ++ tokens.access_token)) [
          | err e ↦ err "Failed to fetch user profile"
          | ok response ↦
              elim (read_reply J "Failed to parse user profile response as JSON" response) [
                | err e ↦ err e
                | ok json ↦ context (parse_user J json) "Failed to parse user profile"
              ]
        ]

  -- The access token's check against the hash in the claims, if they have one
  abbrev pub check_hash : Option Text → Text → O.IdToken → Result (Unit {0})
  check_hash none access_token id_token = ok tt
  check_hash (some expected) access_token id_token = elim (O.hash_of access_token id_token) [
    | err e ↦ err e
    | ok actual ↦ if actual == expected then ok tt else err "Invalid access token"
  ]

  abbrev with_profile : AuthTokens → Text → Result AuthState
  with_profile tokens user_id = elim (fetch_user_profile tokens user_id) [
    | err e ↦ err e
    | ok profile ↦ ok (record { tokens = tokens; profile = profile })
  ]

  abbrev with_claims : TokenResponse O → Claims → Result AuthState
  with_claims response c = elim response.expires_in [
    | none ↦ err "Missing expires_in claim"
    | some expires_in ↦
        with_profile
          (record {
            issued_at = c.issue_time;
            access_token = response.access_token;
            refresh_token = response.refresh_token;
            expires_in = expires_in;
          })
          c.subject
  ]

  unfoldable pub parse_token_response :
      TokenResponse O → (Option Text → Result (Unit {0})) → Result AuthState
  parse_token_response response verifier = elim response.id_token [
    | none ↦ err "Server did not return an ID token"
    | some id_token ↦ elim (O.claims id_token verifier) [
      | err e ↦ err "Failed to verify claims"
      | ok c ↦ elim (check_hash c.access_token_hash response.access_token id_token) [
        | err e ↦ err e
        | ok _ ↦ with_claims response c
      ]
    ]
  ]

  with_claims_lem :
      (response : TokenResponse O) (c : Claims) (s : AuthState)
      → with_claims response c ≡ ok s
      → (s.tokens.access_token ≡ response.access_token)
        × (s.tokens.issued_at ≡ c.issue_time)
        × (response.expires_in ≡ some s.tokens.expires_in)
        × (fetch_user_profile s.tokens c.subject ≡ ok s.profile)
  with_claims_lem response c s h = ground arith

  -- A check that succeeds has compared the hash.
  check_hash-ok :
      (claimed : Option Text) (access_token : Text) (id_token : O.IdToken)
      → check_hash claimed access_token id_token ≡ ok tt
      → (expected : Text) → claimed ≡ some expected
      → O.hash_of access_token id_token ≡ ok expected
  check_hash-ok none access_token id_token h expected e = cc
  check_hash-ok (some claimed) access_token id_token h expected e =
      elim (Result-cases (O.hash_of access_token id_token)) [
        | inr (m, q) ↦ ground arith
        | inl (actual, q) ↦ ground (arith, q)
      ]

  pub parse_token_response_lem :
      (response : TokenResponse O) (verifier : Option Text → Result (Unit {0})) (s : AuthState)
      → parse_token_response response verifier ≡ ok s
      → (id_token : O.IdToken) × (c : Claims) × (response.id_token ≡ some id_token)
        × (O.claims id_token verifier ≡ ok c)
        × ((expected : Text)
            → c.access_token_hash ≡ some expected
            → O.hash_of response.access_token id_token ≡ ok expected)
        × (s.tokens.access_token ≡ response.access_token)
        × (s.tokens.issued_at ≡ c.issue_time)
        × (response.expires_in ≡ some s.tokens.expires_in)
        × (fetch_user_profile s.tokens c.subject ≡ ok s.profile)
  unfolding parse_token_response
  parse_token_response_lem response verifier s h = elim (Option-cases response.id_token) [
    | inl e ↦ ground arith
    | inr (id_token, e) ↦ elim (Result-cases (O.claims id_token verifier)) [
      | inr (m, q) ↦ ground arith
      | inl (c, q) ↦
          elim (Result-cases (check_hash c.access_token_hash response.access_token id_token)) [
            | inr (m, t) ↦ ground arith
            | inl (x, t) ↦
                let (f, i, n, p) = with_claims_lem response c s (ground arith) in
                (
                  id_token,
                  c,
                  e,
                  q,
                  check_hash-ok c.access_token_hash response.access_token id_token t,
                  f,
                  i,
                  n,
                  p,
                )
          ]
    ]
  ]

  -- `StatelessClient::refresh`, of what the token endpoint answers
  unfoldable pub refresh_tokens : (Text → Result (TokenResponse O)) → AuthTokens → Result AuthState
  unfolding parse_token_response
  refresh_tokens exchange tokens = elim tokens.refresh_token [
    | none ↦ err "No refresh token"
    | some refresh_token ↦ elim (exchange refresh_token) [
      | err e ↦ err "Failed to refresh tokens"
      | ok response ↦ parse_token_response response refresh_nonce_verifier
    ]
  ]

  -- The replies that the session relies on, from those of the provider and the API; `exchanged` is the
  -- token response of the code exchange in `login`, and `nonce` what was sent with it.
  abbrev pub provider :
      Text → Result (TokenResponse O) → (Text → Result (TokenResponse O)) → Provider
  provider nonce exchanged exchange = record {
    login = elim exchanged [
      | err e ↦ err "Failed to exchange auth code to access token"
      | ok response ↦ parse_token_response response (nonce_verifier nonce)
    ];
    refresh = refresh_tokens exchange;
    fetch_user_profile = fetch_user_profile;
  }
