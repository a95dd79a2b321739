-- ===== src/Login.antt =====
-- lib/src/datum_cloud/auth.rs: the session of a user at the cloud, its renewal and its end. Times are
-- nanoseconds since the epoch; the clock's reading is an argument. The identity provider is a
-- pair of replies, the file of the session a parameter.
pub mod Client
pub mod Redirect
pub mod Loop
pub mod Profile
pub mod Tokens
mod Tests
use datum_connect.Base.{
  ℕ, zero, suc, ◌+◌, ◌-◌, ◌*◌, ◌/◌, ◌%◌, ◌^◌, ◌≤◌, ◌<◌, min, max, String, ◌≡◌, refl, sym, ap, subst,
  ◌∙◌, ◌≢◌, ◌↔◌, ◌⊎◌, inl, inr, Bool, true, false, not, ◌&&◌, ◌||◌, Option, none, some, List, [],
  ◌∷◌, ◌++◌, map, arith, if◌then◌else◌, Eq, ◌==◌, ==_refl, eq_of_==, option_eq, nat_eq, text_eq,
  Bool-cases, ltb, leb, u16_max, u32_max, u64_mod, ltb→lt, lt→ltb, leb→le, le→leb, tests, length,
  any, all, find, keep, All, Option-cases, length-append, find-test, find-eq-none, Result, ok, err,
  ◌>>=◌, ◌>>◌, context, std_context, to_option, is_ok, Result-cases,
}
use datum_connect.Text.{Text}

abbrev pub second : ℕ
second = 10 ^ 9

-- `REFRESH_AUTH_WHEN`
abbrev pub refresh_auth_when : ℕ
refresh_auth_when = 60 * 30 * second

pub data LoginState : Type 0 where
  missing needs_refresh valid : LoginState

pub record AuthTokens : Type 0 where
  pub access_token : Text
  pub refresh_token : Option Text
  pub issued_at : ℕ
  pub expires_in : ℕ

pub record UserProfile : Type 0 where
  pub user_id : Text
  pub email : Text
  pub first_name : Option Text
  pub last_name : Option Text
  pub avatar_url : Option Text
  pub registration_approval : Option Text

pub record AuthState : Type 0 where
  pub tokens : AuthTokens
  pub profile : UserProfile

abbrev pub expires_at : AuthTokens → ℕ
expires_at t = t.issued_at + t.expires_in

-- `AuthTokens::expires_in_less_than` at the time `now`
abbrev pub expires_in_less_than : ℕ → AuthTokens → ℕ → Bool
expires_in_less_than now t duration = ltb (expires_at t) (now + duration)

-- `AuthTokens::login_state`
abbrev pub login_state : ℕ → AuthTokens → LoginState
login_state now t = if expires_in_less_than now t (60 * 5 * second) then needs_refresh else valid

abbrev pub login_state_for : ℕ → Option AuthState → LoginState
login_state_for now none = missing
login_state_for now (some s) = login_state now s.tokens

-- `UserProfile::display_name`
pub display_name : UserProfile → Text
display_name p = elim p.first_name [
  | none ↦ elim p.last_name [ none ↦ p.email | some y ↦ y ]
  | some x ↦ elim p.last_name [ none ↦ x | some y ↦ x ++ b' ' ∷ y ]
]

-- `AuthClient::next_refresh_delay`, in seconds. The comparison of `expires_at - 30 min` with `now` is
-- written as a sum.
unfoldable pub next_refresh_delay : ℕ → Option AuthState → ℕ
next_refresh_delay now none = 60
next_refresh_delay now (some s) =
    if leb (expires_at s.tokens) (now + refresh_auth_when)
    then 1
    else max ((expires_at s.tokens - (now + refresh_auth_when)) / second) 1
