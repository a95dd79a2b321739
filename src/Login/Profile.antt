-- ===== src/Login/Profile.antt =====
-- `parse_user` of lib/src/datum_cloud/auth.rs: the user's profile in the reply of the API.
use datum_connect.Base.{Option, some, option_eq, nat_eq, text_eq}
use datum_connect.Text.{Text, codes}
use datum_connect.Json.{Json, ◌>>=◌, ◌<|>◌, value_get, get_str}
use datum_connect.Login.{UserProfile}

module _ (J : Json) where
  -- `o.and_then(|s| s.get(key))`
  abbrev field : Option J.Object → Text → Option J.Value
  field o key = o >>= λ s. J.get s key

  abbrev as_text : Option J.Value → Option Text
  as_text o = o >>= J.as_str

  abbrev pub parse_email : Option J.Object → Option J.Object → Option Text
  parse_email spec status = as_text (field spec (codes "email") <|> field status (codes "email"))

  abbrev pub parse_first_name : Option J.Object → Option J.Object → Option Text
  parse_first_name spec status = as_text (
      field spec (codes "givenName")
      <|> field spec (codes "firstName")
      <|> field spec (codes "first_name")
      <|> field status (codes "givenName")
      <|> field status (codes "firstName")
      <|> field status (codes "first_name"))

  abbrev pub parse_last_name : Option J.Object → Option J.Object → Option Text
  parse_last_name spec status = as_text (
      field spec (codes "familyName")
      <|> field spec (codes "lastName")
      <|> field spec (codes "last_name")
      <|> field status (codes "familyName")
      <|> field status (codes "lastName")
      <|> field status (codes "last_name"))

  abbrev pub parse_avatar_url : Option J.Object → Option J.Object → Option Text
  parse_avatar_url spec status = as_text (
      field status (codes "avatarUrl")
      <|> field status (codes "avatar_url")
      <|> field spec (codes "avatarUrl")
      <|> field spec (codes "avatar_url"))

  abbrev pub parse_approval : Option J.Object → Option Text
  parse_approval status =
      as_text (
        field status (codes "registrationApproval")
        <|> field status (codes "registration_approval"))

  unfoldable pub parse_user : J.Value → Option UserProfile
  parse_user json = do
    metadata_value ← value_get J json (codes "metadata")
    metadata ← J.as_object metadata_value
    let spec = value_get J json (codes "spec") >>= J.as_object
    let status = value_get J json (codes "status") >>= J.as_object
    user_id ← get_str J metadata (codes "name")
    email ← parse_email spec status
    some (record {
      user_id = user_id;
      email = email;
      first_name = parse_first_name spec status;
      last_name = parse_last_name spec status;
      avatar_url = parse_avatar_url spec status;
      registration_approval = parse_approval status;
    })
