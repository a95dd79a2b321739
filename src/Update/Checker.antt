-- ===== src/Update/Checker.antt =====
-- `UpdateChecker`: when a check is due, which release is offered, and the asset for the platform.
-- The settings file, the reply of the server and the date parser are parameters; the clock's
-- reading is an argument. Arithmetic is that of a release build, which wraps.
use datum_connect.Base.{
  ℕ, ◌+◌, ◌-◌, ◌*◌, ◌%◌, ◌≡◌, Bool, true, false, not, ◌&&◌, Option, none, some, List, if◌then◌else◌,
  ◌==◌, option_eq, nat_eq, text_eq, ltb, u64_mod, find, Result, ok, err, ◌>>=◌, context,
}
use datum_connect.Text.{Text, codes, contains, contains_char, ends_with, trim_start_matches}
use datum_connect.Update.{
  UpdateSettings, default_settings, GitHubAsset, GitHubRelease, extract_version, is_newer_version,
}

-- The target that the program is compiled for.
pub data Target : Type 0 where
  macos_aarch64 macos_x86_64 windows linux unsupported : Target

-- `(platform_ext, arch_pattern)`
abbrev pub platform : Target → Result (Text × Option Text)
platform macos_aarch64 = ok (codes ".dmg", some (codes "aarch64"))
platform macos_x86_64 = ok (codes ".dmg", some (codes "x86_64"))
platform windows = ok (codes ".exe", none)
platform linux = ok (codes ".AppImage", none)
platform unsupported = err "Unsupported platform"

abbrev pub has_extension : Text → GitHubAsset → Bool
has_extension ext asset = ends_with asset.name ext

abbrev pub is_for : Text → Text → GitHubAsset → Bool
is_for ext arch asset = ends_with asset.name ext && contains asset.name arch

-- The fallback of `find_platform_asset`.
abbrev pub any_matching : Text → List GitHubAsset → Result GitHubAsset
any_matching ext assets = context (find (has_extension ext) assets) "No asset found for platform"

-- An asset that was found is returned, else what comes after.
abbrev pub or_else : Option GitHubAsset → Result GitHubAsset → Result GitHubAsset
or_else none rest = rest
or_else (some asset) rest = ok asset

-- `UpdateChecker::find_platform_asset`
unfoldable pub find_platform_asset : Target → List GitHubAsset → Result GitHubAsset
find_platform_asset target assets = platform target >>= λ (ext, arch_pattern). elim arch_pattern [
  | none ↦ any_matching ext assets
  | some arch ↦ or_else (find (is_for ext arch) assets) (any_matching ext assets)
]

-- The closure that picks the release.
abbrev pub is_stable : GitHubRelease → Bool
is_stable r =
    if r.tag_name == codes "rolling"
    then false
    else not (contains_char (trim_start_matches r.tag_name b'v') b'-')

-- `now - last_check < interval_seconds`, on `u64`
abbrev pub is_too_early : UpdateSettings → ℕ → Option ℕ → Bool
is_too_early settings now none = false
is_too_early settings now (some last_check) =
    ltb ((now + u64_mod - last_check) % u64_mod) ((settings.check_interval_hours * 3600) % u64_mod)

-- What stands behind the settings file, and what the libraries parse.
pub record Platform : Type 1 where
  pub Content : Type 0
  pub DateTime : Type 0
  pub exists : Content → Bool
  pub read : Content → Result UpdateSettings
  pub write : UpdateSettings → Content → Content × Result (Unit {0})
  pub parse_from_rfc3339 : Text → Result DateTime

-- Documented behaviour of the file system and of the YAML library.
pub record IsLawful (P : Platform) : Type 0 where
  pub exists-write :
      (s : UpdateSettings) (c : P.Content)
      → (P.write s c).1 ≡ ok tt
      → P.exists (P.write s c).0 ≡ true
  pub read-write :
      (s : UpdateSettings) (c : P.Content) → (P.write s c).1 ≡ ok tt → P.read (P.write s c).0 ≡ ok s

module _ (P : Platform) where
  open P use {Content, DateTime}

  pub record UpdateInfo : Type 0 where
    pub version : Text
    pub release_name : Text
    pub published_at : DateTime
    pub download_url : Text
    pub download_size : ℕ

  -- `UpdateChecker::load_settings`
  unfoldable pub load_settings : Content → Result UpdateSettings
  load_settings c = if P.exists c then P.read c else ok default_settings

  -- `UpdateChecker::should_check`
  unfoldable pub should_check : Content → ℕ → Result Bool
  unfolding load_settings
  should_check c now = load_settings c >>= λ settings.
      ok (settings.auto_update_enabled && not (is_too_early settings now settings.last_check_time))

  -- The update that the release is, if it is newer.
  abbrev pub info_of : Target → Text → GitHubRelease → Result (Option UpdateInfo)
  info_of target current r =
      let latest_version = extract_version r.tag_name in
      if is_newer_version latest_version (extract_version current)
      then (find_platform_asset target r.assets >>= λ asset.
          P.parse_from_rfc3339 r.published_at >>= λ published_at. ok (
            some (record {
              version = latest_version;
              release_name = r.name;
              published_at = published_at;
              download_url = asset.browser_download_url;
              download_size = asset.size;
            })))
      else ok none

  -- `UpdateChecker::check_for_updates` of the app of version `current`, with the server's reply.
  unfoldable pub check_for_updates :
      Target
      → Text
      → Result (List GitHubRelease)
      → ℕ
      → Content
      → Content × Result (Option UpdateInfo)
  unfolding load_settings
  check_for_updates target current reply now c = elim (load_settings c) [
    | err e ↦ (c, err e)
    | ok settings ↦ if not settings.auto_update_enabled then (c, ok none) else elim reply [
      | err e ↦ (c, err e)
      | ok releases ↦ elim (find is_stable releases) [
        | none ↦ (c, err "No stable release found (excluding rolling and pre-releases)")
        | some r ↦
            let (c', saved) = P.write (record settings { last_check_time = some now }) c in
            elim saved [ err e ↦ (c', err e) | ok _ ↦ (c', info_of target current r) ]
      ]
    ]
  ]
