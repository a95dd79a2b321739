-- ===== src/Session/Context.antt =====
-- `SessionStateWrapper`: the selected context with its file, and the organizations and projects that
-- were fetched last, each with a watch channel.
use datum_connect.Base.{
  String, ◌≡◌, inl, inr, Bool, false, Option, none, some, List, [], arith, if◌then◌else◌, option_eq,
  nat_eq, text_eq, Bool-cases, Result, ok, err, ◌>>=◌, is_ok,
}
use datum_connect.Session.{
  SelectedContext, OrganizationWithProjects, same_selection, same_selection-eq,
}

-- `Repo::write_selected_context` and `Repo::read_selected_context`
pub record ContextFile : Type 1 where
  pub Content : Type 0
  pub write : Option SelectedContext → Content → Content × Result (Unit {0})
  pub read : Content → Result (Option SelectedContext)

pub record IsLawful (F : ContextFile) : Type 0 where
  pub read-write :
      (s : Option SelectedContext) (c : F.Content)
      → (F.write s c).1 ≡ ok tt
      → F.read (F.write s c).0 ≡ ok s

-- `watch::Sender`: a value that is sent while nobody has subscribed is dropped.
pub record Watch {ℓ} (A : Type ℓ) : Type ℓ where
  pub value : A
  pub subscribed : Bool

abbrev pub send {ℓ} : {A : Type ℓ} → A → Watch A → Watch A
send a t = if t.subscribed then record t { value = a } else t

module _ (F : ContextFile) where
  pub record SessionStateWrapper : Type 0 where
    pub selected_context : Option SelectedContext
    pub selected_context_tx : Watch (Option SelectedContext)
    pub orgs_projects : List OrganizationWithProjects
    pub orgs_projects_tx : Watch (List OrganizationWithProjects)
    pub repo : Option F.Content

  abbrev pub empty : SessionStateWrapper
  empty = record {
    selected_context = none;
    selected_context_tx = record { value = none; subscribed = false };
    orgs_projects = [];
    orgs_projects_tx = record { value = []; subscribed = false };
    repo = none;
  }

  abbrev read_repo : Option F.Content → Result (Option SelectedContext)
  read_repo none = ok none
  read_repo (some c) = F.read c

  -- `SessionStateWrapper::from_repo`
  unfoldable pub from_repo : Option F.Content → Result SessionStateWrapper
  from_repo repo = do
    selected ← read_repo repo
    ok (record {
      selected_context = selected;
      selected_context_tx = record { value = selected; subscribed = false };
      orgs_projects = [];
      orgs_projects_tx = record { value = []; subscribed = false };
      repo = repo;
    })

  abbrev write_repo :
      Option SelectedContext → Option F.Content → Option F.Content × Result (Unit {0})
  write_repo s none = (none, ok tt)
  write_repo s (some c) = let (c', written) = F.write s c in (some c', written)

  unfoldable pub set_selected_context :
      Option SelectedContext → SessionStateWrapper → SessionStateWrapper × Result (Unit {0})
  set_selected_context s w =
      if same_selection w.selected_context s
      then (record w { selected_context_tx = send s w.selected_context_tx }, ok tt)
      else (let (repo, written) = write_repo s w.repo in
          elim written [
            | err e ↦ (record w { repo = repo }, err e)
            | ok _ ↦ (
              record w {
                selected_context = s;
                selected_context_tx = send s w.selected_context_tx;
                repo = repo;
              },
              ok tt,
            )
          ])

  abbrev pub set_orgs_projects :
      List OrganizationWithProjects → SessionStateWrapper → SessionStateWrapper
  set_orgs_projects list w = record w {
    orgs_projects = list;
    orgs_projects_tx = send list w.orgs_projects_tx;
  }

  -- A restart would load the selection that is in memory.
  abbrev pub IsStored : SessionStateWrapper → Type 0
  IsStored w = read_repo w.repo ≡ ok w.selected_context

  -- A change of the selection that succeeds is in memory, and in the file that a restart reads; the
  -- watch channel has it only if somebody was subscribed, and else keeps the value it had.
  pub set_selected_context-IsStored :
      IsLawful F
      → (s : Option SelectedContext) (w w' : SessionStateWrapper) (c : F.Content) → w.repo ≡ some c
      → IsStored w
      → set_selected_context s w ≡ (w', ok tt)
      → (w'.selected_context ≡ s)
        × IsStored w'
        × (w'.selected_context_tx.value
            ≡ (if w.selected_context_tx.subscribed then s else w.selected_context_tx.value))
  unfolding set_selected_context
  set_selected_context-IsStored L s w w' c hc i h =
      elim (Bool-cases (same_selection w.selected_context s)) [
        | inl e ↦ ground (arith, same_selection-eq w.selected_context s)
        | inr e ↦ ground (arith, L.read-write s c)
      ]

  -- A change that fails leaves the selection, and what watchers see of it.
  pub set_selected_context-failed :
      (s : Option SelectedContext) (w w' : SessionStateWrapper) (e : String)
      → set_selected_context s w ≡ (w', err e)
      → (w'.selected_context ≡ w.selected_context)
        × (w'.selected_context_tx ≡ w.selected_context_tx)
        × (w'.orgs_projects ≡ w.orgs_projects)
  unfolding set_selected_context
  set_selected_context-failed s w w' e h = ground arith

  pub set_selected_context-result :
      (s : Option SelectedContext) (w : SessionStateWrapper)
      → let (w', r) = set_selected_context s w in
        (w'.orgs_projects ≡ w.orgs_projects)
        × (w'.selected_context ≡ (if is_ok r then s else w.selected_context))
  unfolding set_selected_context
  set_selected_context-result s w = ground (arith, same_selection-eq w.selected_context s)
