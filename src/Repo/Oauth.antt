-- ===== src/Repo/Oauth.antt =====
-- The session's files of lib/src/repo.rs, one for each environment, with the old file that the staging
-- environment falls back on; and the file of the selected context.
use datum_connect.Base.{
  ◌≡◌, ap, ◌≢◌, Option, none, ◌++◌, arith, if◌then◌else◌, ◌==◌, option_eq, nat_eq, text_eq, length,
  length-append, Result, ok,
}
use mathlib.Core.List.{append_cancel_left, append_cancel_right}
use datum_connect.Text.{Text, codes}
use datum_connect.Login.{AuthState}
use datum_connect.Repo.{
  Directory, IsLawful, Yaml, IsYaml, from_file, write_file, from_file-write_file, write_file-Same,
}

-- `Repo::oauth_file_path`
abbrev pub oauth_file_path : Text → Text
oauth_file_path key = codes "oauth." ++ (key ++ codes ".yml")

pub oauth_file_path-injective :
    (key other : Text) → oauth_file_path key ≡ oauth_file_path other → key ≡ other
oauth_file_path-injective key other h =
    append_cancel_right key other (codes ".yml")
      (append_cancel_left (codes "oauth.") (key ++ codes ".yml") (other ++ codes ".yml") h)

-- No environment's file is the old file, which is shorter.
oauth_file_path-legacy : (key : Text) → oauth_file_path key ≢ codes "oauth.yml"
oauth_file_path-legacy key h = omega (arith, length-append key (codes ".yml"), ap length h)

module _ (R : Directory) (Y : Yaml (Option AuthState)) where
  abbrev pub write_oauth_for_key : Text → Option AuthState → R.Dir → R.Dir × Result (Unit {0})
  write_oauth_for_key key state = write_file R Y state (oauth_file_path key)

  abbrev pub write_oauth : Option AuthState → R.Dir → R.Dir × Result (Unit {0})
  write_oauth = write_oauth_for_key (codes "staging")

  unfoldable pub read_oauth_for_key : Text → R.Dir → Result (Option AuthState)
  read_oauth_for_key key d =
      if R.exists (oauth_file_path key) d
      then from_file R Y "failed to read oauth file" "failed to parse oauth file"
          (oauth_file_path key) d
      else if key == codes "staging"
      then (if R.exists (codes "oauth.yml") d
          then from_file R Y "failed to read legacy oauth file" "failed to parse oauth file"
              (codes "oauth.yml") d
          else ok none)
      else ok none

  abbrev pub read_oauth : R.Dir → Result (Option AuthState)
  read_oauth = read_oauth_for_key (codes "staging")

  -- What was written for an environment is read back, also where there is an old file.
  pub read_oauth_for_key-write :
      IsLawful R
      → IsYaml Y
      → (key : Text) (s : Option AuthState) (d : R.Dir) → (write_oauth_for_key key s d).1 ≡ ok tt
      → read_oauth_for_key key (write_oauth_for_key key s d).0 ≡ ok s
  unfolding read_oauth_for_key
  read_oauth_for_key-write L I key s d h = ground (
    arith,
    from_file-write_file R L Y I "failed to read oauth file" "failed to parse oauth file" s
        (oauth_file_path key) d,
  )

  -- The session of one environment is not touched by a write for another.
  pub read_oauth_for_key-other :
      IsLawful R
      → (key other : Text) (s : Option AuthState) (d : R.Dir) → key ≢ other
      → read_oauth_for_key other (write_oauth_for_key key s d).0 ≡ read_oauth_for_key other d
  unfolding read_oauth_for_key
  read_oauth_for_key-other L key other s d n =
      let own =
        write_file-Same R L Y s (oauth_file_path key) (oauth_file_path other) d
          (λ h. n (oauth_file_path-injective key other h)) in
      let old =
        write_file-Same R L Y s (oauth_file_path key) (codes "oauth.yml") d
          (oauth_file_path-legacy key) in
      ground (arith, own.same_exists, own.same_text, old.same_exists, old.same_text)
