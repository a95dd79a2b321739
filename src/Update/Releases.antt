-- ===== src/Update/Releases.antt =====
-- Which release `check_for_updates` offers, said of the tags and the file names themselves.
use datum_connect.Base.{
  ℕ, ◌≡◌, refl, ◌≢◌, ◌↔◌, ◌⊎◌, inl, inr, Bool, true, false, Option, none, some, List, [], ◌∷◌, ◌++◌,
  arith, ◌==◌, eq_of_==, ==_refl, option_eq, nat_eq, text_eq, Bool-cases, Result, ok, Result-cases,
  sym, subst, ap, ◌∙◌,
}
use mathlib.Core.List.{Memᴰ}
use datum_connect.Text.{Text, codes, trim_start_matches, contains_char, ends_with}
use datum_connect.Text.Prefix.{ends_with-append}
use datum_connect.Update.{
  UpdateSettings, GitHubAsset, GitHubRelease, VersionParts, extract_version, is_newer_version,
}
use datum_connect.Update.Version.{Newer, Fits, IsSuffix, printed, is_newer_version_iff}
use datum_connect.Update.Checker.{
  Target, platform, Platform, IsLawful, UpdateInfo, has_extension, is_for, is_stable,
  find_platform_asset, load_settings, check_for_updates,
}
use datum_connect.Update.Offers.{
  IsFirst, IsWanted, find_platform_asset_lem, checked, check_for_updates_lem,
}

-- The text without the letters v in front.
abbrev pub VersionOf : Text → Text → Type 0
VersionOf [] version = version ≡ []
VersionOf (c ∷ tag) version =
    ((c ≡ b'v') × VersionOf tag version) ⊎ ((c ≢ b'v') × (version ≡ c ∷ tag))

extract_version-VersionOf : (tag : Text) → VersionOf tag (extract_version tag)
unfolding extract_version trim_start_matches
extract_version-VersionOf [] = refl
extract_version-VersionOf (c ∷ tag) = ground (arith, extract_version-VersionOf tag)

-- The tag is not the rolling one, and has no hyphen behind its letters v.
abbrev pub NoHyphen : Text → Type 0
NoHyphen [] = Unit
NoHyphen (c ∷ s) = (c ≢ b'-') × NoHyphen s

abbrev pub IsRelease : GitHubRelease → Type 0
IsRelease r = (r.tag_name ≢ codes "rolling") × NoHyphen r.tag_name

contains_char-NoHyphen : (s : Text) → (contains_char s b'-' ≡ false) ↔ NoHyphen s
contains_char-NoHyphen [] = (λ h. tt, λ h. refl)
contains_char-NoHyphen (c ∷ s) =
    (λ h. ground (arith, contains_char-NoHyphen s), λ h. ground (arith, contains_char-NoHyphen s))

contains_char-trimmed :
    (s : Text) → contains_char (trim_start_matches s b'v') b'-' ≡ contains_char s b'-'
unfolding trim_start_matches
contains_char-trimmed [] = refl
contains_char-trimmed (c ∷ s) = ground (arith, contains_char-trimmed s)

is_stable-IsRelease : (r : GitHubRelease) → (is_stable r ≡ true) ↔ IsRelease r
is_stable-IsRelease r =
    let same = contains_char-trimmed r.tag_name in
    let hyphen = contains_char-NoHyphen r.tag_name in
    let rolling : (r.tag_name == codes "rolling") ≡ true → r.tag_name ≡ codes "rolling" =
      eq_of_== r.tag_name (codes "rolling") in
    let is_rolling : r.tag_name ≡ codes "rolling" → (r.tag_name == codes "rolling") ≡ true =
      λ e. ap (λ t. t == codes "rolling") e ∙ ==_refl (codes "rolling") in
    elim (Bool-cases (r.tag_name == codes "rolling")) [
      | inl e ↦ (λ h. absurd (not_stable r e h), λ h. absurd (h.0 (rolling e)))
      | inr e ↦ (
        λ h. (λ q. cc (is_rolling q, e), hyphen.0 (sym same ∙ stable_hyphen r e h)),
        λ h. stable r e (same ∙ hyphen.1 h.1),
      )
    ]
  where
    not_stable : (r : GitHubRelease) → (r.tag_name == codes "rolling") ≡ true → is_stable r ≢ true
    not_stable r e h = let f : is_stable r ≡ false = rw e refl in cc (h, f)

    stable_hyphen :
        (r : GitHubRelease)
        → (r.tag_name == codes "rolling") ≡ false
        → is_stable r ≡ true
        → contains_char (trim_start_matches r.tag_name b'v') b'-' ≡ false
    stable_hyphen r e h =
        elim (Bool-cases (contains_char (trim_start_matches r.tag_name b'v') b'-')) [
          | inl f ↦ let g : is_stable r ≡ false = rw (e, f) refl in cc (h, g)
          | inr f ↦ f
        ]

    stable :
        (r : GitHubRelease)
        → (r.tag_name == codes "rolling") ≡ false
        → contains_char (trim_start_matches r.tag_name b'v') b'-' ≡ false
        → is_stable r ≡ true
    stable r e f = rw (e, f) refl

-- The first release of the list that is one.
abbrev pub IsFirstRelease : GitHubRelease → List GitHubRelease → Type 0
IsFirstRelease r [] = ⊥
IsFirstRelease r (x ∷ xs) = ((r ≡ x) × IsRelease x) ⊎ (¬ IsRelease x × IsFirstRelease r xs)

first-IsFirstRelease :
    (r : GitHubRelease) (xs : List GitHubRelease) → IsFirst is_stable r xs → IsFirstRelease r xs
first-IsFirstRelease r [] h = h
first-IsFirstRelease r (x ∷ xs) (inl (e, t)) = inl (e, (is_stable-IsRelease x).0 t)
first-IsFirstRelease r (x ∷ xs) (inr (f, h)) =
    inr (λ i. absurd (ground (arith, (is_stable-IsRelease x).1 i)), first-IsFirstRelease r xs h)

-- The asset is one of the release, with the extension of the platform.
abbrev pub Suits : Target → GitHubRelease → GitHubAsset → Type 0
Suits target r asset =
    (front : Text) × (ext : Text) × (arch : Option Text) × (platform target ≡ ok (ext, arch))
    × Memᴰ asset r.assets
    × (asset.name ≡ front ++ ext)

IsFirst-holds :
    {A : Type 0} (test : A → Bool) (xs : List A) (a : A)
    → IsFirst test a xs
    → Memᴰ a xs × (test a ≡ true)
IsFirst-holds test [] a h = absurd h
IsFirst-holds test (x ∷ xs) a (inl (e, t)) = (Memᴰ.head e, subst (λ y. test y ≡ true) (sym e) t)
IsFirst-holds test (x ∷ xs) a (inr (f, h)) =
    let (m, t) = IsFirst-holds test xs a h in (Memᴰ.tail m, t)

wanted-holds :
    (ext : Text) (arch : Option Text) (assets : List GitHubAsset) (a : GitHubAsset)
    → IsWanted ext arch assets a
    → Memᴰ a assets × (ends_with a.name ext ≡ true)
wanted-holds ext none assets a h = IsFirst-holds (has_extension ext) assets a h
wanted-holds ext (some p) assets a (inl h) =
    let (m, t) = IsFirst-holds (is_for ext p) assets a h in (m, ground arith)
wanted-holds ext (some p) assets a (inr (n, h)) = IsFirst-holds (has_extension ext) assets a h

find_platform_asset-Suits :
    (target : Target) (r : GitHubRelease) (asset : GitHubAsset)
    → find_platform_asset target r.assets ≡ ok asset
    → Suits target r asset
unfolding find_platform_asset
find_platform_asset-Suits target r asset h = elim (Result-cases (platform target)) [
  | inr (m, e) ↦ ground arith
  | inl ((ext, arch), e) ↦
      let (m, t) =
        wanted-holds ext arch r.assets asset
          ((find_platform_asset_lem target r.assets ext arch asset e).0 h) in
      let (front, q) = ends_with-append asset.name ext t in (front, ext, arch, e, m, q)
]

module _ (P : Platform) where
  open P use {Content}

  -- The offer is of the release: it has the version of the tag, and an asset for the platform. Where
  -- both versions are of the form major.minor.patch, with or without a suffix, it is newer than the
  -- running one.
  abbrev pub Announces : Target → Text → GitHubRelease → UpdateInfo P → Type 0
  Announces target current r info =
      VersionOf r.tag_name info.version
      × ((asset : GitHubAsset) × Suits target r asset
          × (info.download_url ≡ asset.browser_download_url))
      × ((running : Text) × VersionOf current running
          × ((v w : VersionParts) (a b : Text)
              → Fits v
              → Fits w
              → IsSuffix a
              → IsSuffix b
              → info.version ≡ printed v ++ a
              → running ≡ printed w ++ b
              → Newer v w))

  -- An update is offered only with automatic updates on. It is the first release of the reply that is
  -- neither the rolling one nor a pre-release, with an asset of the platform's extension, and its
  -- version is above the running one where both are of the form major.minor.patch; the settings file
  -- then holds the time of the check.
  pub check_for_updates-offer :
      IsLawful P
      → (target : Target) (current : Text) (reply : Result (List GitHubRelease)) (now : ℕ)
        (c c' : Content) (info : UpdateInfo P)
      → check_for_updates P target current reply now c ≡ (c', ok (some info))
      → (s : UpdateSettings) × (releases : List GitHubRelease) × (r : GitHubRelease)
        × (load_settings P c ≡ ok s)
        × (s.auto_update_enabled ≡ true)
        × (load_settings P c' ≡ ok (checked s now))
        × (reply ≡ ok releases)
        × IsFirstRelease r releases
        × Announces target current r info
  check_for_updates-offer L target current reply now c c' info h =
      let (s, releases, r, l, on, saved, q, first, d) =
        check_for_updates_lem P L target current reply now c c' info h in
      let (version, newer, offered) = d in
      let (asset, found, url) = offered in
      (
        s,
        releases,
        r,
        l,
        on,
        saved,
        q,
        first-IsFirstRelease r releases first,
        (
          subst (VersionOf r.tag_name) (sym version) (extract_version-VersionOf r.tag_name),
          (asset, find_platform_asset-Suits target r asset found, url),
          (
            extract_version current,
            extract_version-VersionOf current,
            λ v w a b fv fw sa sb e f. (is_newer_version_iff v w a b fv fw sa sb).0 (
                subst (λ t. is_newer_version (printed v ++ a) t ≡ true) f
                  (subst (λ t. is_newer_version t (extract_version current) ≡ true) e newer)),
          ),
        ),
      )
