-- ===== src/Update/Offers.antt =====
-- What `UpdateChecker` offers, and when it looks again.
use datum_connect.Base.{
  context, ℕ, ◌+◌, ◌-◌, ◌*◌, ◌%◌, ◌≤◌, ◌<◌, ◌≡◌, refl, sym, ap, subst, ◌∙◌, ◌≢◌, ◌↔◌, ◌⊎◌, inl, inr,
  Bool, true, false, not, ◌&&◌, Option, none, some, List, [], ◌∷◌, arith, option_eq, nat_eq,
  text_eq, ltb, u64_mod, any, find, Option-cases, Result, ok, err, Result-cases,
}
use datum_connect.Text.{Text, trim_start_matches}
use datum_connect.Update.{
  UpdateSettings, GitHubAsset, GitHubRelease, extract_version, is_newer_version,
}
use datum_connect.Update.Version.{is_newer_version_irrefl}
use datum_connect.Update.Checker.{
  or_else, Target, platform, has_extension, is_for, any_matching, find_platform_asset, is_stable,
  is_too_early, Platform, IsLawful, UpdateInfo, load_settings, should_check, info_of,
  check_for_updates,
}

-- `x` stands in the list and passes the test, and no entry before it does.
abbrev pub IsFirst : {A : Type 0} → (A → Bool) → A → List A → Type 0
IsFirst test x [] = ⊥
IsFirst test x (y ∷ ys) = ((x ≡ y) × (test y ≡ true)) ⊎ ((test y ≡ false) × IsFirst test x ys)

IsFirst-unique :
    {A : Type 0} (test : A → Bool) (xs : List A) (a b : A)
    → IsFirst test a xs
    → IsFirst test b xs
    → a ≡ b
IsFirst-unique test [] a b h k = absurd h
IsFirst-unique test (x ∷ xs) a b h k = ground (arith, IsFirst-unique test xs a b)

extract_version_twice : (tag : Text) → extract_version (extract_version tag) ≡ extract_version tag
unfolding extract_version trim_start_matches
extract_version_twice [] = refl
extract_version_twice (x ∷ tag) = ground (arith, extract_version_twice tag)

find-IsFirst :
    {A : Type 0} (test : A → Bool) (xs : List A) (a : A) → find test xs ≡ some a → IsFirst test a xs
find-IsFirst test [] a h = cc
find-IsFirst test (x ∷ xs) a h = ground (arith, find-IsFirst test xs a)

any-find-none :
    {A : Type 0} (test : A → Bool) (xs : List A) → find test xs ≡ none → any test xs ≡ false
any-find-none test [] h = refl
any-find-none test (x ∷ xs) h = ground (arith, any-find-none test xs)

find-any-false :
    {A : Type 0} (test : A → Bool) (xs : List A) → any test xs ≡ false → find test xs ≡ none
find-any-false test [] h = refl
find-any-false test (x ∷ xs) h = ground (arith, find-any-false test xs)

IsFirst-find :
    {A : Type 0} (test : A → Bool) (xs : List A) (a : A) → IsFirst test a xs → find test xs ≡ some a
IsFirst-find test [] a h = absurd h
IsFirst-find test (x ∷ xs) a h = ground (arith, IsFirst-find test xs a)

any_matching_iff :
    (ext : Text) (assets : List GitHubAsset) (a : GitHubAsset)
    → (any_matching ext assets ≡ ok a) ↔ IsFirst (has_extension ext) a assets
any_matching_iff ext assets a = go (find (has_extension ext) assets) refl
  where
    go :
        (o : Option GitHubAsset)
        → find (has_extension ext) assets ≡ o
        → (context o "No asset found for platform" ≡ ok a) ↔ IsFirst (has_extension ext) a assets
    go none f = (λ h. cc, λ h. ground (arith, IsFirst-find (has_extension ext) assets a h))
    go (some b) f = (
      λ h. find-IsFirst (has_extension ext) assets a (ground arith),
      λ h. ground (arith, IsFirst-find (has_extension ext) assets a h),
    )

-- The asset that the platform asks for.
abbrev pub IsWanted : Text → Option Text → List GitHubAsset → GitHubAsset → Type 0
IsWanted ext none assets a = IsFirst (has_extension ext) a assets
IsWanted ext (some pattern) assets a =
    IsFirst (is_for ext pattern) a assets
    ⊎ ((any (is_for ext pattern) assets ≡ false) × IsFirst (has_extension ext) a assets)

-- The asset that is returned, and there is one exactly if there is such an asset, is the first one of the
-- platform's extension and architecture; the architecture does not count on a platform without
-- one, or if no asset of the extension has it.
pub find_platform_asset_lem :
    (target : Target) (assets : List GitHubAsset) (ext : Text) (arch : Option Text)
    (a : GitHubAsset)
    → platform target ≡ ok (ext, arch)
    → (find_platform_asset target assets ≡ ok a) ↔ IsWanted ext arch assets a
unfolding find_platform_asset
find_platform_asset_lem target assets ext none a e = rw e (any_matching_iff ext assets a)
find_platform_asset_lem target assets ext (some p) a e = rw e (go (find (is_for ext p) assets) refl)
  where
    go :
        (o : Option GitHubAsset)
        → find (is_for ext p) assets ≡ o
        → (or_else o (any_matching ext assets) ≡ ok a) ↔ IsWanted ext (some p) assets a
    go none f = (
      λ h. inr (any-find-none (is_for ext p) assets f, (any_matching_iff ext assets a).0 h),
      λ w. elim w [
        | inl h ↦ ground (arith, IsFirst-find (is_for ext p) assets a h)
        | inr (n, h) ↦ (any_matching_iff ext assets a).1 h
      ],
    )
    go (some b) f = (
      λ h. inl (find-IsFirst (is_for ext p) assets a (ground arith)),
      λ w. elim w [
        | inl h ↦ ground (arith, IsFirst-find (is_for ext p) assets a h)
        | inr (n, h) ↦ ground (arith, find-any-false (is_for ext p) assets n)
      ],
    )

wrapped_difference :
    (now last : ℕ) → last ≤ now → now < u64_mod → (now + u64_mod - last) % u64_mod ≡ now - last
wrapped_difference now last h lt = omega arith

fitting : (n : ℕ) → n < u64_mod → n % u64_mod ≡ n
fitting n h = omega arith

due :
    (enabled : Bool) (now last interval : ℕ)
    → last ≤ now
    → (Result.ok (enabled && not (ltb (now - last) interval)) ≡ ok true)
      ↔ ((enabled ≡ true) × ((l : ℕ) → some last ≡ some l → l + interval ≤ now))
due enabled now last interval h =
    (λ e. (ground arith, λ l p. ground arith), λ (e, f). ground (arith, f last refl))

-- The settings with the time of the check.
abbrev pub checked : UpdateSettings → ℕ → UpdateSettings
checked s now = record s { last_check_time = some now }

module _ (P : Platform) where
  open P use {Content}

  -- On a clock that was not set back, and with numbers that do not overflow, a check is due exactly
  -- if updates are enabled and the last check, if there was one, is the interval ago.
  pub should_check_iff :
      (c : Content) (now : ℕ) (s : UpdateSettings)
      → load_settings P c ≡ ok s
      → now < u64_mod
      → s.check_interval_hours * 3600 < u64_mod
      → ((last : ℕ) → s.last_check_time ≡ some last → last ≤ now)
      → (should_check P c now ≡ ok true) ↔ (
          (s.auto_update_enabled ≡ true)
          × ((last : ℕ)
              → s.last_check_time ≡ some last
              → last + s.check_interval_hours * 3600 ≤ now))
  unfolding should_check
  should_check_iff c now s e lt fits past = rw e (go s.last_check_time refl)
    where
      go :
          (o : Option ℕ)
          → s.last_check_time ≡ o
          → (Result.ok (s.auto_update_enabled && not (is_too_early s now o)) ≡ ok true) ↔ (
              (s.auto_update_enabled ≡ true)
              × ((last : ℕ) → o ≡ some last → last + s.check_interval_hours * 3600 ≤ now))
      go none h = ground arith
      go (some last) h =
          rw (wrapped_difference now last (past last h) lt, fitting _ fits)
            (due s.auto_update_enabled now last (s.check_interval_hours * 3600) (past last h))

  -- What an offer says of the release.
  abbrev pub Describes : Target → Text → GitHubRelease → UpdateInfo P → Type 0
  Describes target current r info =
      (info.version ≡ extract_version r.tag_name)
      × (is_newer_version info.version (extract_version current) ≡ true)
      × ((asset : GitHubAsset) × (find_platform_asset target r.assets ≡ ok asset)
          × (info.download_url ≡ asset.browser_download_url))

  info_of-Describes :
      (target : Target) (current : Text) (r : GitHubRelease) (info : UpdateInfo P)
      → info_of P target current r ≡ ok (some info)
      → Describes target current r info
  info_of-Describes target current r info h =
      elim (Result-cases (find_platform_asset target r.assets)) [
        | inr (e, f) ↦ ground arith
        | inl (asset, f) ↦ elim (Result-cases (P.parse_from_rfc3339 r.published_at)) [
          | inr (e, g) ↦ ground arith
          | inl (date, g) ↦ (ground arith, ground arith, (asset, f, ground arith))
        ]
      ]

  load_settings-write :
      IsLawful P
      → (s : UpdateSettings) (c : Content) → (P.write s c).1 ≡ ok tt
      → load_settings P (P.write s c).0 ≡ ok s
  unfolding load_settings
  load_settings-write L s c w = ground (arith, L.exists-write s c, L.read-write s c)

  -- What is offered is the first stable release of the reply, newer than the running version,
  -- with the wanted asset, and the time of the check is what the settings file then holds.
  pub check_for_updates_lem :
      IsLawful P
      → (target : Target) (current : Text) (reply : Result (List GitHubRelease)) (now : ℕ)
        (c c' : Content) (info : UpdateInfo P)
      → check_for_updates P target current reply now c ≡ (c', ok (some info))
      → (s : UpdateSettings) × (releases : List GitHubRelease) × (r : GitHubRelease)
        × (load_settings P c ≡ ok s)
        × (s.auto_update_enabled ≡ true)
        × (load_settings P c' ≡ ok (checked s now))
        × (reply ≡ ok releases)
        × IsFirst is_stable r releases
        × Describes target current r info
  unfolding check_for_updates
  check_for_updates_lem L target current (err e) now c c' info h =
      elim (Result-cases (load_settings P c)) [
        | inr (e, f) ↦ ground arith
        | inl (s, f) ↦ ground arith
      ]
  check_for_updates_lem L target current (ok releases) now c c' info h =
      elim (Result-cases (load_settings P c)) [
        | inr (e, f) ↦ ground arith
        | inl (s, f) ↦ elim (Option-cases (find is_stable releases)) [
          | inl n ↦ ground arith
          | inr (r, g) ↦ elim (Result-cases (P.write (checked s now) c).1) [
            | inr (e, w) ↦ ground arith
            | inl (u, w) ↦ (
              s,
              releases,
              r,
              f,
              ground arith,
              subst (λ d. load_settings P d ≡ ok (checked s now)) (ground arith)
                  (load_settings-write L (checked s now) c (w ∙ ap ok refl)),
              refl,
              find-IsFirst is_stable releases r g,
              info_of-Describes target current r info (ground arith),
            )
          ]
        ]
      ]

  -- Once the update to an offered version is made, a check with the same reply, at any time, offers
  -- none.
  pub check_for_updates_settles :
      IsLawful P
      → (target : Target) (current : Text) (reply : Result (List GitHubRelease)) (now later : ℕ)
        (c c' c'' : Content) (info again : UpdateInfo P)
      → check_for_updates P target current reply now c ≡ (c', ok (some info))
      → check_for_updates P target info.version reply later c' ≢ (c'', ok (some again))
  check_for_updates_settles L target current reply now later c c' c'' info again h k =
      let (s1, rs1, r1, l1, e1, w1, q1, f1, d1) =
        check_for_updates_lem L target current reply now c c' info h in
      let (s2, rs2, r2, l2, e2, w2, q2, f2, d2) =
        check_for_updates_lem L target info.version reply later c' c'' again k in
      let same : rs2 ≡ rs1 = ground arith in
      let r_same = IsFirst-unique is_stable rs1 r2 r1 (subst (IsFirst is_stable r2) same f2) f1 in
      ground (
        arith,
        r_same,
        d1.0,
        d2.0,
        d2.1,
        extract_version_twice r1.tag_name,
        is_newer_version_irrefl (extract_version r1.tag_name),
      )

  -- After an offer no check is due before the interval is over, and from then on it is.
  pub should_check-check_for_updates :
      IsLawful P
      → (target : Target) (current : Text) (reply : Result (List GitHubRelease)) (now later : ℕ)
        (c c' : Content) (info : UpdateInfo P) (s : UpdateSettings)
      → load_settings P c ≡ ok s
      → check_for_updates P target current reply now c ≡ (c', ok (some info))
      → now ≤ later
      → later < u64_mod
      → s.check_interval_hours * 3600 < u64_mod
      → (should_check P c' later ≡ ok true) ↔ (now + s.check_interval_hours * 3600 ≤ later)
  should_check-check_for_updates L target current reply now later c c' info s e h le lt fits =
      let (s1, rs, r, l, enabled, w, q, f, d) =
        check_for_updates_lem L target current reply now c c' info h in
      let same : s1 ≡ s = ground arith in
      let due =
        should_check_iff c' later (checked s1 now) w lt
          (subst (λ t. t.check_interval_hours * 3600 < u64_mod) (sym same) fits)
          (λ last p. ground arith) in
      (
        λ q. ground (arith, (due.0 q).1 now refl, same),
        λ b. due.1 (enabled, λ last p. ground (arith, same)),
      )
