-- ===== src/Login/Client.antt =====
-- `AuthStateWrapper` and `AuthClient`: every change is written to the file first, and told to the
-- watchers last.
use datum_connect.Base.{
  ℕ, ◌+◌, ◌%◌, ◌≤◌, ◌≡◌, ◌⊎◌, inl, inr, Option, none, some, arith, if◌then◌else◌, option_eq, nat_eq,
  text_eq, Bool-cases, u64_mod, Option-cases, Result, ok, err, Result-cases,
}
use datum_connect.Text.{Text}
use datum_connect.Login.{
  LoginState, AuthTokens, UserProfile, AuthState, refresh_auth_when, expires_at,
  expires_in_less_than, login_state_for,
}

-- The file of the session: a write may fail, and may then leave anything.
pub record SessionFile : Type 1 where
  pub Content : Type 0
  -- `Repo::write_oauth_for_key`
  pub write : Option AuthState → Content → Content × Result (Unit {0})
  -- `Repo::read_oauth_for_key`
  pub read : Content → Result (Option AuthState)

pub record IsLawful (F : SessionFile) : Type 0 where
  pub read-write :
      (s : Option AuthState) (c : F.Content)
      → (F.write s c).1 ≡ ok tt
      → F.read (F.write s c).0 ≡ ok s

-- The replies of `StatelessClient`.
pub record Provider : Type 0 where
  pub login : Result AuthState
  pub refresh : AuthTokens → Result AuthState
  pub fetch_user_profile : AuthTokens → Text → Result UserProfile

module _ (F : SessionFile) where
  pub record AuthStateWrapper : Type 0 where
    pub inner : Option AuthState
    pub file : F.Content
    -- the values of the two watch channels
    pub login_state : LoginState
    pub auth_updates : ℕ

  -- `AuthStateWrapper::from_repo`
  unfoldable pub from_repo : ℕ → F.Content → Result AuthStateWrapper
  from_repo now c = elim (F.read c) [
    | err e ↦ err e
    | ok s ↦
        ok (record { inner = s; file = c; login_state = login_state_for now s; auth_updates = 0 })
  ]

  -- `AuthStateWrapper::set`
  unfoldable pub set :
      ℕ → AuthStateWrapper → Option AuthState → AuthStateWrapper × Result (Unit {0})
  set now w auth =
      let (file, written) = F.write auth w.file in
      elim written [
        | err e ↦ (record w { file = file }, err e)
        | ok _ ↦ (
          record {
            inner = auth;
            file = file;
            login_state = login_state_for now auth;
            auth_updates = (w.auth_updates + 1) % u64_mod;
          },
          ok tt,
        )
      ]

  module _ (P : Provider) (now : ℕ) where
    -- `AuthClient::refresh` of a session that is there
    unfoldable pub refresh_session :
        AuthStateWrapper → AuthState → AuthStateWrapper × Result (Unit {0})
    unfolding set
    refresh_session w auth = elim (P.refresh auth.tokens) [
      | ok new_auth ↦ set now w (some new_auth)
      | err e ↦
          let (w', cleared) = set now w none in
          elim cleared [
            | err f ↦ (w', err f)
            | ok _ ↦ (w', err "Failed to refresh auth tokens, needs login")
          ]
    ]

    unfoldable pub refresh : AuthStateWrapper → AuthStateWrapper × Result (Unit {0})
    unfolding refresh_session
    refresh w = elim w.inner [
      | none ↦ (w, err "Not logged in")
      | some auth ↦ refresh_session w auth
    ]

    unfoldable pub refresh_if_needed : AuthStateWrapper → AuthStateWrapper × Result (Unit {0})
    unfolding refresh
    refresh_if_needed w = elim w.inner [
      | none ↦ (w, ok tt)
      | some auth ↦
          if expires_in_less_than now auth.tokens refresh_auth_when then refresh w else (w, ok tt)
    ]

    unfoldable pub load_refreshed : AuthStateWrapper → AuthStateWrapper × Result (Option AuthState)
    unfolding refresh_if_needed
    load_refreshed w =
        let (w', r) = refresh_if_needed w in
        elim r [ err e ↦ (w', err e) | ok _ ↦ (w', ok w'.inner) ]

    unfoldable pub logout : AuthStateWrapper → AuthStateWrapper × Result (Unit {0})
    unfolding set
    logout w = set now w none

    -- What `AuthClient::login` stores: `none` if the session is good as it is.
    abbrev login_reply : Option AuthState → Option (Result AuthState)
    login_reply none = some P.login
    login_reply (some auth) =
        if expires_in_less_than now auth.tokens refresh_auth_when
        then elim (P.refresh auth.tokens) [ ok a ↦ some (ok a) | err e ↦ some P.login ]
        else none

    unfoldable pub login : AuthStateWrapper → AuthStateWrapper × Result (Unit {0})
    unfolding set
    login w = elim (login_reply w.inner) [
      | none ↦ (w, ok tt)
      | some r ↦ elim r [ err e ↦ (w, err e) | ok auth ↦ set now w (some auth) ]
    ]

    unfoldable pub refresh_profile : AuthStateWrapper → AuthStateWrapper × Result (Unit {0})
    unfolding set
    refresh_profile w = elim w.inner [
      | none ↦ (w, err "Not logged in")
      | some auth ↦ elim (P.fetch_user_profile auth.tokens auth.profile.user_id) [
        | err e ↦ (w, err e)
        | ok profile ↦ set now w (some (record auth { profile = profile }))
      ]
    ]

  pub data Operation : Type 0 where
    logging_in refreshing logging_out checking profiling : Operation

  abbrev pub perform :
      Operation → Provider → ℕ → AuthStateWrapper → AuthStateWrapper × Result (Unit {0})
  perform logging_in P now w = login P now w
  perform refreshing P now w = refresh P now w
  perform logging_out P now w = logout P now w
  perform checking P now w = refresh_if_needed P now w
  perform profiling P now w = refresh_profile P now w

  -- The file holds the session that is in memory.
  abbrev pub IsStored : AuthStateWrapper → Type 0
  IsStored w = F.read w.file ≡ ok w.inner

  set-IsStored :
      IsLawful F
      → (now : ℕ) (w w' : AuthStateWrapper) (auth : Option AuthState) → set now w auth ≡ (w', ok tt)
      → IsStored w'
  unfolding set
  set-IsStored L now w w' auth h = ground (arith, L.read-write auth w.file)

  refresh_session-IsStored :
      IsLawful F
      → (P : Provider) (now : ℕ) (w w' : AuthStateWrapper) (auth : AuthState)
      → refresh_session P now w auth ≡ (w', ok tt)
      → IsStored w'
  unfolding refresh_session
  refresh_session-IsStored L P now w w' auth h = elim (Result-cases (P.refresh auth.tokens)) [
    | inl (new_auth, e) ↦ set-IsStored L now w w' (some new_auth) (ground arith)
    | inr (m, e) ↦ elim (Result-cases (set now w none).1) [
      | inl (u, q) ↦ ground arith
      | inr (f, q) ↦ ground arith
    ]
  ]

  -- After an operation that succeeds, the file holds the session that is in memory, if it did before.
  pub perform-IsStored :
      IsLawful F
      → (op : Operation) (P : Provider) (now : ℕ) (w w' : AuthStateWrapper) → IsStored w
      → perform op P now w ≡ (w', ok tt)
      → IsStored w'
  unfolding login refresh logout refresh_if_needed refresh_profile
  perform-IsStored L logging_in P now w w' i h = elim (Option-cases (login_reply P now w.inner)) [
    | inl e ↦ ground arith
    | inr (err m, e) ↦ ground arith
    | inr (ok auth, e) ↦ set-IsStored L now w w' (some auth) (ground arith)
  ]
  perform-IsStored L refreshing P now w w' i h = elim (Option-cases w.inner) [
    | inl e ↦ ground arith
    | inr (auth, e) ↦ refresh_session-IsStored L P now w w' auth (ground arith)
  ]
  perform-IsStored L logging_out P now w w' i h = set-IsStored L now w w' none h
  perform-IsStored L checking P now w w' i h = elim (Option-cases w.inner) [
    | inl e ↦ ground arith
    | inr (auth, e) ↦ ground (arith, refresh_session-IsStored L P now w w' auth)
  ]
  perform-IsStored L profiling P now w w' i h = elim (Option-cases w.inner) [
    | inl e ↦ ground arith
    | inr (auth, e) ↦ elim (Result-cases (P.fetch_user_profile auth.tokens auth.profile.user_id)) [
      | inr (m, q) ↦ ground arith
      | inl (profile, q) ↦
          set-IsStored L now w w' (some (record auth { profile = profile })) (ground arith)
    ]
  ]

  -- What `load_refreshed` returns is the session in memory, and unless it was just renewed it is
  -- good for 30 minutes.
  pub load_refreshed-good :
      (P : Provider) (now : ℕ) (w w' : AuthStateWrapper) (s : AuthState)
      → load_refreshed P now w ≡ (w', ok (some s))
      → (w'.inner ≡ some s)
        × ((now + refresh_auth_when ≤ expires_at s.tokens)
            ⊎ ((old : AuthState) × (w.inner ≡ some old) × (P.refresh old.tokens ≡ ok s)))
  unfolding load_refreshed refresh refresh_if_needed refresh_session set
  load_refreshed-good P now w w' s h = elim (Option-cases w.inner) [
    | inl e ↦ ground arith
    | inr (auth, e) ↦ elim (Bool-cases (expires_in_less_than now auth.tokens refresh_auth_when)) [
      | inr f ↦ (ground arith, inl (ground arith))
      | inl f ↦ elim (Result-cases (P.refresh auth.tokens)) [
        | inr (m, q) ↦ ground arith
        | inl (new_auth, q) ↦ (ground arith, inr (auth, e, ground arith))
      ]
    ]
  ]
