-- ===== src/Login/Redirect.antt =====
-- The redirect server of lib/src/datum_cloud/auth.rs, which waits for the authorization code.
use datum_connect.Base.{
  ◌≡◌, ap, inl, inr, false, List, [], ◌∷◌, ◌++◌, arith, if◌then◌else◌, ◌==◌, option_eq, nat_eq,
  text_eq, Bool-cases, All, Result, ok, err,
}
use datum_connect.Text.{Text}

pub record OauthRedirectData : Type 0 where
  pub code : Text
  pub state : Text

-- `RedirectServer::recv` over what the web server sends: requests of anybody, or its failure, until
-- its channel is closed. The rest is what was not looked at.
unfoldable pub recv :
    Text → List (Result OauthRedirectData) → Result (Text × List (Result OauthRedirectData))
recv csrf_token [] = err "web server closed"
recv csrf_token (err e ∷ rest) = err "web server failed"
recv csrf_token (ok reply ∷ rest) =
    let later = recv csrf_token rest in
    if reply.state == csrf_token then ok (reply.code, rest) else later

abbrev pub IsForged : Text → Result OauthRedirectData → Type 0
IsForged csrf_token (ok reply) = (reply.state == csrf_token) ≡ false
IsForged csrf_token (err e) = ⊥

-- The code that is returned came with the token of this login, and what came before it was requests
-- with another token, which are passed over.
pub recv_lem :
    (csrf_token code : Text) (replies rest : List (Result OauthRedirectData))
    → recv csrf_token replies ≡ ok (code, rest)
    → (before : List (Result OauthRedirectData)) × (reply : OauthRedirectData) × (replies
        ≡ before ++ ok reply ∷ rest)
      × All (IsForged csrf_token) before
      × (reply.state ≡ csrf_token)
      × (reply.code ≡ code)
unfolding recv
recv_lem t c [] rest h = ground arith
recv_lem t c (err e ∷ replies) rest h = ground arith
recv_lem t c (ok r ∷ replies) rest h = elim (Bool-cases (r.state == t)) [
  | inl e ↦ ([], r, ground arith, tt, ground arith, ground arith)
  | inr e ↦
      let (before, reply, s, f, u, v) = recv_lem t c replies rest (ground arith) in
      (ok r ∷ before, reply, ap (λ l. ok r ∷ l) s, (e, f), u, v)
]

-- A request with another token does not stop the login: the code that comes with the right one is
-- returned.
pub recv-IsForged :
    (csrf_token : Text) (before rest : List (Result OauthRedirectData)) (reply : OauthRedirectData)
    → All (IsForged csrf_token) before
    → reply.state ≡ csrf_token
    → recv csrf_token (before ++ ok reply ∷ rest) ≡ ok (reply.code, rest)
unfolding recv
recv-IsForged t [] rest reply h e = ground arith
recv-IsForged t (err m ∷ before) rest reply h e = ground arith
recv-IsForged t (ok r ∷ before) rest reply (f, h) e =
    ground (arith, recv-IsForged t before rest reply h e)
