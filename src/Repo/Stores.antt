-- ===== src/Repo/Stores.antt =====
-- The directory as the files that other parts rely on: the session's (lib/src/datum_cloud/auth.rs), the
-- selected context's (lib/src/datum_cloud.rs) and the node's state (lib/src/state.rs).
use datum_connect.Base.{
  ◌≡◌, inl, inr, true, Option, none, arith, if◌then◌else◌, option_eq, nat_eq, text_eq, Result, ok,
  ◌>>=◌, Result-cases,
}
use datum_connect.Text.{Text, codes}
use datum_connect.Login.{AuthState}
use datum_connect.Login.Client
use datum_connect.Login.Client.{SessionFile}
use datum_connect.Session.{SelectedContext}
use datum_connect.Session.Context
use datum_connect.Session.Context.{ContextFile}
use datum_connect.State.{State}
use datum_connect.State.Store
use datum_connect.State.Store.{Disk}
use datum_connect.Repo.{
  Bytes, Directory, IsLawful, Yaml, IsYaml, from_file, write_file, from_file-write_file,
}
use datum_connect.Repo.Oauth.{write_oauth_for_key, read_oauth_for_key, read_oauth_for_key-write}

module _ (R : Directory) where
  -- `Repo::write_selected_context`
  abbrev pub write_selected_context :
      Yaml (Option SelectedContext) → Option SelectedContext → R.Dir → R.Dir × Result (Unit {0})
  write_selected_context Y s = write_file R Y s (codes "selected_context.yml")

  -- `Repo::read_selected_context`
  unfoldable pub read_selected_context :
      Yaml (Option SelectedContext) → R.Dir → Result (Option SelectedContext)
  read_selected_context Y d =
      if R.exists (codes "selected_context.yml") d
      then from_file R Y "failed to read selected context file"
          "failed to parse selected context file" (codes "selected_context.yml") d
      else ok none

  abbrev pub session_file : Yaml (Option AuthState) → Text → SessionFile
  session_file Y key = record {
    Content = R.Dir;
    write = write_oauth_for_key R Y key;
    read = read_oauth_for_key R Y key;
  }

  abbrev pub context_file : Yaml (Option SelectedContext) → ContextFile
  context_file Y = record {
    Content = R.Dir;
    write = write_selected_context Y;
    read = read_selected_context Y;
  }

  -- `State::from_file` reads the bytes.
  abbrev pub state_from_file : (Bytes → Result State) → R.Dir → Result State
  state_from_file from_slice d = R.read (codes "state.yml") d >>= from_slice

  -- `State::write_to_file`, by `Repo::write_state`
  abbrev pub write_state : Yaml State → State → R.Dir → R.Dir × Result (Unit {0})
  write_state Y s = write_file R Y s (codes "state.yml")

  abbrev pub state_disk : Yaml State → (Bytes → Result State) → Disk
  state_disk Y from_slice = record {
    Content = R.Dir;
    exists = R.exists (codes "state.yml");
    read = state_from_file from_slice;
    write = write_state Y;
  }

  -- The session's file of an environment is what the session relies on.
  pub session_file-IsLawful :
      IsLawful R
      → (Y : Yaml (Option AuthState)) → IsYaml Y
      → (key : Text) → Client.IsLawful (session_file Y key)
  session_file-IsLawful L Y I key = record {
    read-write = λ s d h. read_oauth_for_key-write R Y L I key s d h;
  }

  -- The file of the selected context is what the cloud client relies on.
  pub context_file-IsLawful :
      IsLawful R
      → (Y : Yaml (Option SelectedContext)) → IsYaml Y
      → Context.IsLawful (context_file Y)
  unfolding read_selected_context
  context_file-IsLawful L Y I = record {
    read-write = λ s d h. ground (
      arith,
      from_file-write_file R L Y I "failed to read selected context file"
          "failed to parse selected context file" s (codes "selected_context.yml") d,
    );
  }

  state_from_file-write_state :
      IsLawful R
      → (Y : Yaml State) (from_slice : Bytes → Result State)
      → ((s : State) (t : Text) → Y.to_string s ≡ ok t → from_slice (R.as_bytes t) ≡ ok s)
      → (s : State) (d : R.Dir) → (write_state Y s d).1 ≡ ok tt
      → (R.exists (codes "state.yml") (write_state Y s d).0 ≡ true)
        × (state_from_file from_slice (write_state Y s d).0 ≡ ok s)
  state_from_file-write_state L Y from_slice I s d h = elim (Result-cases (Y.to_string s)) [
    | inr (e, q) ↦ ground arith
    | inl (t, q) ↦ ground (
      arith,
      L.exists-write (codes "state.yml") (R.as_bytes t) d,
      L.read-write (codes "state.yml") (R.as_bytes t) d,
      I s t,
    )
  ]

  -- The state's file is what the node's state relies on.
  pub state_disk-IsLawful :
      IsLawful R
      → (Y : Yaml State) (from_slice : Bytes → Result State)
      → ((s : State) (t : Text) → Y.to_string s ≡ ok t → from_slice (R.as_bytes t) ≡ ok s)
      → Store.IsLawful (state_disk Y from_slice)
  state_disk-IsLawful L Y from_slice I = record {
    exists-write = λ s d h. (state_from_file-write_state L Y from_slice I s d h).0;
    read-write = λ s d h. (state_from_file-write_state L Y from_slice I s d h).1;
  }
