-- ===== src/Gateway/Responder.antt =====
-- `ErrorResponseWriter::error_response`: the page that the gateway answers with.
-- The reason phrases and the page template are library code and arguments.
use datum_connect.Base.{
  ℕ, String, Option, none, some, [], ◌∷◌, ◌++◌, if◌then◌else◌, ◌==◌, option_eq, nat_eq, text_eq,
}
use datum_connect.Text.{Text, codes, print_uint}
use datum_connect.Gateway.{GatewayMetrics, Magicsock, has_existing_peer_conn}
use datum_connect.Gateway.Metrics.{
  is_server_error, inc_status_code, inc_5xx_failure_by_peer_conn_state,
}

pub body_text : ℕ → String
body_text status =
    if status == 400
    then "The request could not be understood by the gateway. Please try again."
    else if status == 401
    then "You are not logged in or your session has expired. Please sign in and try again."
    else if status == 403
    then "Access to this resource is not allowed through the gateway."
    else if status == 404
    then "The requested page could not be found through the gateway."
    else if status == 500
    then "The gateway encountered an internal error. Please try again later."
    else if status == 502
    then "The gateway could not get a valid response from the upstream service."
    else if status == 503
    then "The service is temporarily unavailable. Please try again shortly."
    else if status == 504
    then "The upstream service took too long to respond."
    else "The service experienced an unexpected error."

-- `has_existing_peer_conn` is asked only for a server error.
unfoldable pub count_response : Magicsock → ℕ → GatewayMetrics → GatewayMetrics
count_response socket status m =
    let m1 = inc_status_code status m in
    if is_server_error status
    then inc_5xx_failure_by_peer_conn_state (has_existing_peer_conn socket) m1
    else m1

pub record Response : Type 0 where
  pub status : ℕ
  pub content_length : Text
  pub body : Text

-- `render title body` is `none` where the template fails; the length is that of the bytes.
module _ (canonical_reason : ℕ → Option Text) (render : Text → Text → Option Text)
    (byte_len : Text → ℕ) where
  pub title_of : ℕ → Text
  title_of status =
      print_uint status ++ b' ' ∷ elim (canonical_reason status) [ none ↦ [] | some r ↦ r ]

  pub page : ℕ → Text
  unfolding title_of body_text
  page status = elim (render (title_of status) (codes (body_text status))) [
    | none ↦ title_of status
    | some html ↦ html
  ]

  pub error_response : Magicsock → ℕ → GatewayMetrics → GatewayMetrics × Response
  unfolding page count_response
  error_response socket status m = (
    count_response socket status m,
    record {
      status = status;
      content_length = print_uint (byte_len (page status));
      body = page status;
    },
  )
