-- ===== src/Update.antt =====
-- lib/src/update.rs: the check for a newer release of the app.
pub mod Version
pub mod Checker
pub mod Loop
pub mod Offers
pub mod Releases
mod Tests
use Prim.Native.Nat.{compare, Ordering}
use datum_connect.Base.{
  ℕ, zero, suc, ◌+◌, ◌-◌, ◌*◌, ◌/◌, ◌%◌, ◌^◌, ◌≤◌, ◌<◌, min, max, String, ◌≡◌, refl, sym, ap, subst,
  ◌∙◌, ◌≢◌, ◌↔◌, ◌⊎◌, inl, inr, Bool, true, false, not, ◌&&◌, ◌||◌, Option, none, some, List, [],
  ◌∷◌, ◌++◌, map, arith, if◌then◌else◌, Eq, ◌==◌, ==_refl, eq_of_==, option_eq, nat_eq, text_eq,
  Bool-cases, ltb, leb, u16_max, u32_max, u64_mod, ltb→lt, lt→ltb, leb→le, le→leb, tests, length,
  any, all, find, keep, All, Option-cases, length-append, find-test, find-eq-none, Result, ok, err,
  ◌>>=◌, ◌>>◌, context, std_context, to_option, is_ok, Result-cases,
}
use datum_connect.Text.{Text, codes, parse_uint, split, split_first, trim_start_matches}

pub record UpdateSettings : Type 0 where
  pub check_interval_hours : ℕ
  pub last_check_time : Option ℕ
  pub auto_update_enabled : Bool

-- `UpdateSettings::default`
abbrev pub default_settings : UpdateSettings
default_settings = record {
  check_interval_hours = 12;
  last_check_time = none;
  auto_update_enabled = true;
}

pub record GitHubAsset : Type 0 where
  pub name : Text
  pub browser_download_url : Text
  pub size : ℕ

pub record GitHubRelease : Type 0 where
  pub tag_name : Text
  pub name : Text
  pub published_at : Text
  pub assets : List GitHubAsset

pub record VersionParts : Type 0 where
  pub major : ℕ
  pub minor : ℕ
  pub patch : ℕ

-- `UpdateChecker::extract_version`
unfoldable pub extract_version : Text → Text
extract_version tag = trim_start_matches tag b'v'

-- `parts.get(i)`
abbrev pub get : ℕ → List Text → Option Text
get i [] = none
get zero (part ∷ parts) = some part
get (suc i) (part ∷ parts) = get i parts

-- `.and_then(|s| s.parse::<u32>().ok()).unwrap_or(0)`
abbrev pub number : Option Text → ℕ
number none = 0
number (some s) = elim (parse_uint u32_max s) [ none ↦ 0 | some n ↦ n ]

-- `UpdateChecker::parse_semantic_version`
unfoldable pub parse_semantic_version : Text → VersionParts
parse_semantic_version version =
    let parts = split (split_first version b'-') b'.' in
    record {
      major = number (get 0 parts);
      minor = number (get 1 parts);
      patch = number (get 2 parts);
    }

-- The comparison of `UpdateChecker::is_newer_version`.
abbrev pub is_newer : VersionParts → VersionParts → Bool
is_newer v1 v2 = elim (compare v1.major v2.major) [
  | Ordering.gt ↦ true
  | Ordering.lt ↦ false
  | Ordering.eq ↦ elim (compare v1.minor v2.minor) [
    | Ordering.gt ↦ true
    | Ordering.lt ↦ false
    | Ordering.eq ↦ elim (compare v1.patch v2.patch) [
      | Ordering.gt ↦ true
      | Ordering.lt ↦ false
      | Ordering.eq ↦ false
    ]
  ]
]

unfoldable pub is_newer_version : Text → Text → Bool
is_newer_version version1 version2 =
    is_newer (parse_semantic_version version1) (parse_semantic_version version2)
