-- ===== src/Json.antt =====
-- `serde_json::Value` as the code reads it, with chains of `?` and `or_else` over options, and the
-- responses of an HTTP request for JSON.
use datum_connect.Base.{
  String, Bool, Option, none, some, List, if◌then◌else◌, option_eq, nat_eq, text_eq, Result, err,
  std_context,
}
use datum_connect.Text.{Text}

pub record Json : Type 1 where
  pub Value : Type 0
  -- `serde_json::Map`
  pub Object : Type 0
  pub as_object : Value → Option Object
  pub as_array : Value → Option (List Value)
  pub as_str : Value → Option Text
  -- `Map::get`
  pub get : Object → Text → Option Value

infixl 5 ◌>>=◌
-- `o?` and the rest, and `o.and_then(k)`
abbrev pub ◌>>=◌ {ℓ κ} : {A : Type ℓ} {B : Type κ} → Option A → (A → Option B) → Option B
none >>= k = none
some a >>= k = k a

-- `o.map(f)`
abbrev pub map_option {ℓ κ} : {A : Type ℓ} {B : Type κ} → (A → B) → Option A → Option B
map_option f none = none
map_option f (some a) = some (f a)

infixr 4 ◌<|>◌
-- `a.or_else(|| b)`
abbrev pub ◌<|>◌ {ℓ} : {A : Type ℓ} → Option A → Option A → Option A
none <|> b = b
some a <|> b = some a

module _ (J : Json) where
  -- `Value::get` with a string: none unless the value is an object.
  abbrev pub value_get : J.Value → Text → Option J.Value
  value_get v key = J.as_object v >>= λ o. J.get o key

  -- The object at a key.
  abbrev pub get_object : J.Object → Text → Option J.Object
  get_object o key = J.get o key >>= J.as_object

  -- The text at a key.
  abbrev pub get_str : J.Object → Text → Option Text
  get_str o key = J.get o key >>= J.as_str

-- `reqwest`: a response, with its body if that is JSON.
pub record Response (J : Json) : Type 0 where
  pub is_success : Bool
  pub json : Result J.Value

-- The checks of a response after the request
abbrev pub read_reply : (J : Json) → String → Response J → Result J.Value
read_reply J message response =
    if response.is_success
    then std_context response.json message
    else err "Request failed with status"
