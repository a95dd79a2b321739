-- ===== src/Request.antt =====
-- What the program reads of the requests of the proxy library (iroh_proxy_utils), and the answers
-- that it gives: `HttpProxyRequestKind`, `Authority` and the outcome of `AuthHandler::authorize`.
use datum_connect.Base.{ℕ, option_eq, nat_eq, text_eq}
use datum_connect.Text.{Text}

pub record Authority : Type 0 where
  pub host : Text
  pub port : ℕ

pub data HttpProxyRequestKind : Type 0 where
  tunnel : Authority → HttpProxyRequestKind
  absolute : Text → HttpProxyRequestKind

-- `Result<(), AuthError>`; the program returns no other error than `Forbidden`.
pub data Verdict : Type 0 where
  allowed forbidden : Verdict
