-- ===== src/Ui/Forms.antt =====
-- The checks of the forms: ui/src/components/add_tunnel_dialog.rs and
-- ui/src/components/invite_user_dialog.rs. `str::to_lowercase` is a parameter, for Unicode's tables.
use datum_connect.Base.{
  String, ◌≡◌, Bool, true, false, not, ◌&&◌, ◌||◌, Option, none, some, List, [], ◌∷◌, arith,
  if◌then◌else◌, option_eq, nat_eq, text_eq, skip, ok, err, is_ok,
}
use datum_connect.Text.{Text, codes, trim, starts_with, contains_char}
use datum_connect.State.{from_host_port_str}

abbrev is_empty {ℓ} : {A : Type ℓ} → List A → Bool
is_empty [] = true
is_empty (x ∷ xs) = false

abbrev is_none : Option String → Bool
is_none none = true
is_none (some m) = false

module _ (to_lowercase : Text → Text) where
  unfoldable pub strip_http_scheme : Text → Text
  strip_http_scheme text =
      let s = trim text in
      let lower = to_lowercase s in
      if starts_with lower (codes "https://")
      then trim (skip 8 s)
      else if starts_with lower (codes "http://")
      then trim (skip 7 s)
      else s

  abbrev address_error : Text → Option String
  address_error s = elim (from_host_port_str s) [ ok d ↦ none | err e ↦ some "Invalid address" ]

  -- The message below the field, if there is one
  unfoldable pub validate_tunnel_address : Text → Option String
  validate_tunnel_address text =
      let s = trim text in
      let lower = to_lowercase s in
      if is_empty s
      then none
      else if starts_with lower (codes "http://") || starts_with lower (codes "https://")
      then some "Do not include http:// or https://"
      else address_error s

  -- The form's address has no message exactly if it is empty, or has no scheme and is a host and a port
  -- that the tunnel service takes.
  pub validate_tunnel_address_lem :
      (text : Text)
      → is_none (validate_tunnel_address text) ≡ (
          is_empty (trim text)
          || (not (starts_with (to_lowercase (trim text)) (codes "http://"))
              && not (starts_with (to_lowercase (trim text)) (codes "https://"))
              && is_ok (from_host_port_str (trim text))))
  unfolding validate_tunnel_address
  validate_tunnel_address_lem text = ground arith

abbrev pub validate_email : Text → Option String
validate_email text =
    let email = trim text in
    if is_empty email
    then none
    else if not (contains_char email b'@') || not (contains_char email b'.')
    then some "Please enter a valid email address."
    else none
