-- ===== src/Update/Tests.antt =====
-- Runs of the update check over a small settings file, and instances of its theorems.
use datum_connect.Base.{
  ◌≡◌, ◌↔◌, ◌++◌, arith, refl, true, false, Option, none, some, List, [], ◌∷◌, option_eq, nat_eq,
  text_eq, Result, ok, err,
}
use datum_connect.Text.{Text, codes, parse_uint, split, split_first, trim_start_matches}
use datum_connect.Update.{
  UpdateSettings, default_settings, GitHubAsset, GitHubRelease, VersionParts, is_newer_version,
  extract_version, parse_semantic_version,
}
use datum_connect.Update.Checker.{
  linux, Platform, IsLawful, UpdateInfo, find_platform_asset, check_for_updates, load_settings,
}
use datum_connect.Update.Offers.{checked}
use datum_connect.Update.Releases.{IsFirstRelease, Announces, check_for_updates-offer}
use datum_connect.Update.Version.{Newer, printed, is_newer_version_iff}
use datum_connect.Update.Loop.{App, Turn, turn, turn-disabled}

abbrev small : Platform
small = record {
  Content = Option UpdateSettings;
  DateTime = Text;
  exists = λ c. elim c [ none ↦ false | some s ↦ true ];
  read = λ c. elim c [ none ↦ err "no file" | some s ↦ ok s ];
  write = λ s c. (some s, ok tt);
  parse_from_rfc3339 = λ t. ok t;
}

small-IsLawful : IsLawful small
small-IsLawful = record { exists-write = λ s c h. refl; read-write = λ s c h. refl }

abbrev dmg : GitHubAsset
dmg = record {
  name = codes "app-aarch64.dmg";
  browser_download_url = codes "https://x/1";
  size = 10;
}

abbrev image : GitHubAsset
image = record {
  name = codes "app.AppImage";
  browser_download_url = codes "https://x/2";
  size = 20;
}

abbrev rolling : GitHubRelease
rolling = record {
  tag_name = codes "rolling";
  name = codes "Rolling";
  published_at = [];
  assets = [];
}

abbrev beta : GitHubRelease
beta = record {
  tag_name = codes "v0.2.0-beta";
  name = codes "Beta";
  published_at = [];
  assets = [];
}

abbrev stable : GitHubRelease
stable = record {
  tag_name = codes "v0.1.10";
  name = codes "Stable";
  published_at = codes "2026";
  assets = dmg ∷ image ∷ [];
}

abbrev reply : Result (List GitHubRelease)
reply = ok (rolling ∷ beta ∷ stable ∷ [])

abbrev offered : UpdateInfo small
offered = record {
  version = codes "0.1.10";
  release_name = codes "Stable";
  published_at = codes "2026";
  download_url = codes "https://x/2";
  download_size = 20;
}

abbrev after : Option UpdateSettings
after = some (checked default_settings 1000)

offer : check_for_updates small linux (codes "0.1.9") reply 1000 none ≡ (after, ok (some offered))
unfolding check_for_updates find_platform_asset is_newer_version extract_version
    parse_semantic_version split split_first trim_start_matches parse_uint nat_eq text_eq
offer = refl

check_for_updates-offer_example :
    (s : UpdateSettings) × (releases : List GitHubRelease) × (r : GitHubRelease) × (load_settings
        small none
      ≡ ok s)
    × (s.auto_update_enabled ≡ true)
    × (load_settings small after ≡ ok (checked s 1000))
    × (reply ≡ ok releases)
    × IsFirstRelease r releases
    × Announces small linux (codes "0.1.9") r offered
check_for_updates-offer_example =
    check_for_updates-offer small small-IsLawful linux (codes "0.1.9") reply 1000 none after offered
      offer

abbrev release : VersionParts
release = record { major = 0; minor = 1; patch = 10 }

abbrev older : VersionParts
older = record { major = 0; minor = 1; patch = 9 }

is_newer_version_iff_example :
    (is_newer_version (printed release ++ codes "-beta") (printed older ++ []) ≡ true)
    ↔ Newer release older
is_newer_version_iff_example =
    is_newer_version_iff release older (codes "-beta") [] (omega arith) (omega arith) refl tt

abbrev turned_off : UpdateSettings
turned_off = record default_settings { auto_update_enabled = false }

-- A check was asked for, and 12 hours are over.
abbrev asking : App small linux (codes "0.1.9")
asking = record {
  content = some turned_off;
  manual_update_check = true;
  update_info = none;
  update_dialog_open = false;
  last_periodic_check = 0;
}

abbrev half_a_day : Turn small linux (codes "0.1.9")
half_a_day = record { now = 1000; clock = 43200; manual_reply = reply; periodic_reply = reply }

turn-disabled_example :
    ((turn small linux (codes "0.1.9") half_a_day asking).content ≡ some turned_off)
    × ((turn small linux (codes "0.1.9") half_a_day asking).update_info ≡ none)
    × ((turn small linux (codes "0.1.9") half_a_day asking).update_dialog_open ≡ false)
unfolding load_settings
turn-disabled_example =
    turn-disabled small linux (codes "0.1.9") half_a_day asking turned_off refl refl
